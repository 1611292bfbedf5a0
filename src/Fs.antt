-- ===== src/Fs.antt =====
-- kernel/kernel.c: the RAM disk, a table of MAX_FILES entries. Each function takes the table
-- `fs_table` and returns the new one. A name is a C string of at most 31 bytes; the contents are
-- the whole buffer `data`, MAX_FILE_SIZE bytes with whatever an earlier file has left in it.
-- An `int` result of -1 for a missing file is `none`.
pub mod Buffer
pub mod Lookup
pub mod Invariant
pub mod Map
pub mod Change
pub mod Dirs
pub mod DirLaws
pub mod PathLaws
pub mod PathBounds
pub mod Commands
pub mod CommandLaws
pub mod Calls
pub mod CommandKeeps
pub mod Errors
mod Tests
use tark_os.Prelude.{ℕ, zero, suc, ◌+◌, ◌-◌, Bool, true, false, not, ◌&&◌, ◌||◌, ltb, leb, ◌==◌}
use tark_os.Prelude.{if◌then◌else◌, Option, none, some, List, [], ◌∷◌, ◌++◌, codes, length, get_or}
use tark_os.Prelude.{set, replicate}
use tark_os.Prelude.Int.{ℤ, pos, negsuc}
use tark_os.Text.{CString, str_eq}

abbrev pub max_files : ℕ
max_files = 32

abbrev pub max_file_size : ℕ
max_file_size = 2048

pub record File : Type 0 where
  pub name : CString
  pub contents : List ℕ
  pub size : ℕ
  pub used : Bool

abbrev pub Table : Type 0
Table = List File

-- An entry after `memset(fs_table, 0, ...)`.
abbrev pub empty_file : File
empty_file = record { name = []; contents = replicate max_file_size 0; size = 0; used = false }

-- `fs_table[i]`
abbrev pub file_at : Table → ℕ → File
file_at t i = get_or t i empty_file

-- The byte loop of `memcpy` from `src` to `buf[i]` on. A source that ends reads as 0.
unfoldable pub memcpy : List ℕ → ℕ → List ℕ → ℕ → List ℕ
memcpy buf i src zero = buf
memcpy buf i [] (suc n) = memcpy (set buf i 0) (i + 1) [] n
memcpy buf i (b ∷ src) (suc n) = memcpy (set buf i b) (i + 1) src n

-- The loop of `fs_find_file` at `i`.
unfoldable pub find_file_from : Table → CString → ℕ → Option ℕ
find_file_from [] name i = none
find_file_from (f ∷ fs) name i =
    let rest = find_file_from fs name (i + 1) in
    if f.used && str_eq f.name name then some i else rest

unfoldable pub fs_find_file : Table → CString → Option ℕ
unfolding find_file_from
fs_find_file t name = find_file_from t name 0

unfoldable pub fs_name_valid : CString → Bool
fs_name_valid name = not (length name == 0 || leb 32 (length name))

-- The search of `fs_write_file` for an entry that is not used, at `i`.
unfoldable pub find_unused_from : Table → ℕ → Option ℕ
find_unused_from [] i = none
find_unused_from (f ∷ fs) i =
    let rest = find_unused_from fs (i + 1) in if f.used then rest else some i

-- The entry that `fs_write_file` writes to: the file of that name, or else the first unused one.
unfoldable pub slot_for : Table → CString → Option ℕ
unfolding fs_find_file find_unused_from
slot_for t name = elim (fs_find_file t name) [ some i ↦ some i | none ↦ find_unused_from t 0 ]

-- The two tests of `size` in `fs_write_file`.
abbrev pub clamp_size : ℤ → ℕ
clamp_size (pos n) = if ltb (max_file_size - 1) n then max_file_size - 1 else n
clamp_size (negsuc n) = 0

-- The writes to `fs_table[id]` in `fs_write_file`, of `size` bytes.
unfoldable pub fill_file : File → CString → List ℕ → ℕ → File
unfolding memcpy
fill_file f name src size = record {
  name = name;
  contents = set (memcpy f.contents 0 src size) size 0;
  size = size;
  used = true;
}

abbrev pub no_space : ℤ
no_space = negsuc 0

abbrev pub bad_name : ℤ
bad_name = negsuc 1

-- Returns the entry's number, -1 where there is no room and -2 for a bad name.
unfoldable pub fs_write_file : Table → CString → List ℕ → ℤ → Table × ℤ
unfolding fs_name_valid slot_for fill_file
fs_write_file t name src size =
    if fs_name_valid name
    then (elim (slot_for t name) [
      | none ↦ (t, no_space)
      | some id ↦ (set t id (fill_file (file_at t id) name src (clamp_size size)), pos id)
    ])
    else (t, bad_name)

-- The number of bytes that `fs_append_file` adds to a file of `old` bytes, where it is not 0.
abbrev pub room_for : ℕ → ℕ → ℕ
room_for old size = if ltb (max_file_size - 1 - old) size then max_file_size - 1 - old else size

unfoldable pub grow_file : File → List ℕ → ℕ → File
unfolding memcpy
grow_file f src n = record f {
  contents = set (memcpy f.contents f.size src n) (f.size + n) 0;
  size = f.size + n;
}

-- Appending to the file in entry `id`. The free space is an `int`: it is at most 0 exactly if the
-- truncated difference is 0.
unfoldable pub append_at : Table → ℕ → List ℕ → ℤ → Table × ℤ
unfolding grow_file
append_at t id src (negsuc n) = (t, pos 0)
append_at t id src (pos n) =
    let f = file_at t id in
    if n == 0 || leb (max_file_size - 1) f.size
    then (t, pos 0)
    else (set t id (grow_file f src (room_for f.size n)), pos (room_for f.size n))

unfoldable pub fs_append_file : Table → CString → List ℕ → ℤ → Table × ℤ
unfolding fs_find_file append_at
fs_append_file t name src size = elim (fs_find_file t name) [
  | none ↦ (t, no_space)
  | some id ↦ append_at t id src size
]

unfoldable pub fs_delete_file : Table → CString → Table × Bool
unfolding fs_find_file
fs_delete_file t name = elim (fs_find_file t name) [
  | none ↦ (t, false)
  | some id ↦ (set t id (record (file_at t id) { used = false }), true)
]

unfoldable pub fs_used_files : Table → ℕ
fs_used_files [] = 0
fs_used_files (f ∷ fs) = (if f.used then 1 else 0) + fs_used_files fs

unfoldable pub fs_used_bytes : Table → ℕ
fs_used_bytes [] = 0
fs_used_bytes (f ∷ fs) = (if f.used then f.size else 0) + fs_used_bytes fs

-- `strcpy(fs_table[i].name, ...)` and the lines after it in `fs_init`, on an entry of zeros.
abbrev pub file_of : CString → List ℕ → File
file_of name text = record {
  name = name;
  contents = text ++ replicate (max_file_size - length text) 0;
  size = length text;
  used = true;
}

abbrev pub system_text : List ℕ
system_text =
    codes
      "TarkOS Nova Eternal v1.9.6\nStatus: Ultimate Build Online.\nFilesystem: 50+ Commands Stable."

abbrev pub test_text : List ℕ
test_text =
    codes
      "This is a Nova test file.\nCinematic features: ACTIVE.\nCommand verification: IN PROGRESS."

unfoldable pub fs_init : Table
fs_init =
    file_of (codes "System.sys") system_text
    ∷ file_of (codes "test.txt") test_text
    ∷ replicate (max_files - 2) empty_file
