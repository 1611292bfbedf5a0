-- ===== src/Fs/Dirs.antt =====
-- kernel/kernel.c: directories and paths. A directory is there if some file's name begins with its
-- path and a slash; `fs_mkdir` makes it by an empty file `.dir`. `char[64]` buffers are not bounded
-- here: every path that reaches these functions comes from `build_path`, which keeps it below 32.
use tark_os.Prelude.{ℕ, zero, suc, ◌+◌, ◌-◌, Bool, true, false, ◌&&◌, ltb, leb, ◌==◌}
use tark_os.Prelude.{if◌then◌else◌, Option, none, some, [], ◌∷◌, ◌++◌, codes, length, get_or}
use tark_os.Prelude.{take}
use tark_os.Prelude.Int.{ℤ, pos, negsuc}
use tark_os.Text.{CString, str_eq, starts_with, slash}
use tark_os.Fs.{Table, fs_find_file, fs_write_file}

-- The test of one name in the loops of `fs_dir_exists` and `fs_rmdir`.
abbrev pub is_under : CString → CString → Bool
is_under dir name = starts_with name dir && get_or name (length dir) 0 == slash

unfoldable pub any_under : Table → CString → Bool
any_under [] dir = false
any_under (f ∷ fs) dir =
    let rest = any_under fs dir in if f.used && is_under dir f.name then true else rest

-- `path + 1` where the path begins with a slash.
abbrev pub skip_slash : CString → CString
skip_slash [] = []
skip_slash (c ∷ cs) = if c == slash then cs else c ∷ cs

unfoldable pub fs_dir_exists : Table → CString → Bool
unfolding any_under
fs_dir_exists t path =
    let dir = skip_slash path in
    if str_eq path (slash ∷ []) then true else if length dir == 0 then true else any_under t dir

-- The loop that removes the slashes at the end of `base`.
unfoldable pub strip_slashes : CString → CString
strip_slashes [] = []
strip_slashes (c ∷ cs) = elim (strip_slashes cs) [
  | [] ↦ if c == slash then [] else c ∷ []
  | d ∷ ds ↦ c ∷ d ∷ ds
]

abbrev pub dir_mark : CString
dir_mark = codes "/.dir"

abbrev pub is_code_ok : ℤ → Bool
is_code_ok (pos n) = true
is_code_ok (negsuc n) = false

-- `fs_mkdir` from the search for the mark on.
unfoldable pub make_mark : Table → CString → Table × Bool
unfolding fs_find_file fs_write_file
make_mark t meta = elim (fs_find_file t meta) [
  | some id ↦ (t, true)
  | none ↦ let (t', code) = fs_write_file t meta [] (pos 0) in (t', is_code_ok code)
]

unfoldable pub fs_mkdir : Table → CString → Table × Bool
unfolding strip_slashes make_mark
fs_mkdir t path =
    let base = strip_slashes path in
    if length base == 0
    then (t, false)
    else if leb 32 (length base + 5)
    then (t, false)
    else make_mark t (base ++ dir_mark)

-- The loop of `fs_rmdir`: the table and the number of entries removed.
unfoldable pub remove_under : Table → CString → Table × ℕ
remove_under [] dir = ([], 0)
remove_under (f ∷ fs) dir =
    let (fs', n) = remove_under fs dir in
    if f.used && is_under dir f.name then (record f { used = false } ∷ fs', n + 1) else (f ∷ fs', n)

unfoldable pub fs_rmdir : Table → CString → Table × ℕ
unfolding strip_slashes remove_under
fs_rmdir t path =
    let base = strip_slashes path in if length base == 0 then (t, 0) else remove_under t base

abbrev pub tail_of : CString → CString
tail_of [] = []
tail_of (c ∷ cs) = cs

-- `strcmp(current_path, "/") != 0 ? strlen(current_path + 1) : 0`, as the string itself.
abbrev pub base_of : CString → CString
base_of current = if str_eq current (slash ∷ []) then [] else tail_of current

-- `build_path` of a name that is not empty, by its first character. `none` is its result 0, which
-- leaves `out` unset.
unfoldable pub build_path : CString → CString → Option CString
build_path current [] = none
build_path current (c ∷ name) =
    let base = base_of current in
    let total = length base + (if ltb 0 (length base) then 1 else 0) + suc (length name) in
    if c == slash
    then (if length name == 0 then none else if leb 32 (length name) then none else some name)
    else if leb 32 total
    then none
    else if length base == 0
    then some (c ∷ name)
    else some (base ++ (slash ∷ c ∷ name))

-- The loop of `path_parent` that looks for the last slash, from `i` down.
unfoldable pub last_slash : CString → ℕ → ℕ
last_slash path zero = zero
last_slash path (suc i) =
    let below = last_slash path i in if get_or path (suc i) 0 == slash then suc i else below

unfoldable pub path_parent : CString → CString
unfolding last_slash
path_parent path =
    let i = last_slash path (length path - 1) in
    if leb (length path) 1 then slash ∷ [] else if i == 0 then slash ∷ [] else take i path
