-- ===== src/Fs/Map.antt =====
-- kernel.c: the table of files implements a finite map from names to contents. Writing inserts,
-- appending extends and deleting removes, and each keeps the table's invariant.
use mathlib.Core.Option
use tark_os.Prelude.{ℕ, ◌+◌, ◌≤◌, ◌<◌, ◌≡◌, refl, ◌∙◌, ap, arith, ◌⊎◌, inl, inr}
use tark_os.Prelude.{Bool, true, false, if◌then◌else◌, Bool-cases}
use tark_os.Prelude.{Option, none, some, List, length, set, take}
use tark_os.Prelude.{get_or-set_self}
use tark_os.Prelude.Int.{ℤ, pos, negsuc}
use tark_os.Text.{CString, str_eq}
use tark_os.Text.Search.{str_eq_refl}
use tark_os.Fs.{
  File, Table, file_at, fs_name_valid, fill_file, grow_file, fs_write_file, clamp_size, max_files,
  max_file_size, no_space,
}
use tark_os.Fs.Buffer.{
  content, length-memcpy, length-fill_file, length-grow_file, content-fill_file,
}
use tark_os.Fs.Lookup.{is_named, lookup, IsSlot-cases, IsSlot, lookup-set}
use tark_os.Fs.Invariant.{IsFile, IsValid, set-IsValid, slot_alone}

-- The map: the contents of the file of a name.
abbrev pub view : Table → CString → Option (List ℕ)
view t n = Option.map content (lookup t n)

fill_file-IsFile :
    (f : File) (name : CString) (src : List ℕ) (n : ℕ)
    → IsFile f
    → fs_name_valid name ≡ true
    → n < max_file_size
    → IsFile (fill_file f name src n)
unfolding fs_name_valid fill_file
fill_file-IsFile f name src n v ok h = record {
  short_name = ground arith;
  buffer = length-fill_file f name src n ∙ v.buffer;
  fits = h;
  ended =
      get_or-set_self {A = ℕ} _ n 0 0 (omega (arith, length-memcpy f.contents 0 src n, v.buffer));
}

pub grow_file-IsFile :
    (f : File) (src : List ℕ) (n : ℕ)
    → IsFile f
    → f.size + n < max_file_size
    → IsFile (grow_file f src n)
unfolding grow_file
grow_file-IsFile f src n v h = record {
  short_name = v.short_name;
  buffer = length-grow_file f src n ∙ v.buffer;
  fits = h;
  ended =
      get_or-set_self {A = ℕ} _ (f.size + n) 0 0
        (omega (arith, length-memcpy f.contents f.size src n, v.buffer));
}

pub view-set :
    (t : Table) (n m : CString) (k : ℕ) (g : File)
    → IsSlot t n k
    → is_named n g ≡ true
    → view (set t k g) m ≡ (if str_eq n m then some (content g) else view t m)
view-set t n m k g s named =
    ap (Option.map content) (lookup-set t n m k g s named) ∙ split (str_eq n m)
  where
    split :
        (b : Bool)
        → Option.map content (if b then some g else lookup t m)
          ≡ (if b then some (content g) else view t m)
    split true = refl
    split false = refl

clamp_size-lt : (size : ℤ) → clamp_size size < max_file_size
clamp_size-lt (pos n) = ground arith
clamp_size-lt (negsuc n) = omega arith

-- What `fs_write_file` does to a valid table with a name of 1 to 31 bytes: it has no room, since no
-- file has the name and all entries are in use, and changes nothing; or it returns the number of
-- an entry, and the map has the first bytes of the source under the name and is else as before.
abbrev pub Writes : Table → CString → List ℕ → ℤ → Type 0
Writes t name src size =
    ((fs_write_file t name src size ≡ (t, no_space))
      × (view t name ≡ none)
      × ((j : ℕ) → j < max_files → (file_at t j).used ≡ true))
    ⊎ ((id : ℕ) × ((fs_write_file t name src size).1 ≡ pos id)
        × (id < max_files)
        × ((m : CString)
            → view (fs_write_file t name src size).0 m
              ≡ (if str_eq name m then some (take (clamp_size size) src) else view t m)))

-- On a valid table, for a valid name and a source of at least the bytes to write, `fs_write_file`
-- inserts into the map, at most MAX_FILE_SIZE - 1 bytes, or finds no room and changes nothing.
pub write_file-Writes :
    (t : Table) (name : CString) (src : List ℕ) (size : ℤ)
    → IsValid t
    → fs_name_valid name ≡ true
    → clamp_size size ≤ length src
    → Writes t name src size
unfolding fs_write_file
write_file-Writes t name src size v ok enough = elim (IsSlot-cases t name) [
  | inl (missing, gone, full) ↦
      inl (rw (ok, missing, fs_write_file), rw gone, λ j l. full j (omega (arith, v.entries)))
  | inr (k, found, slot, whose) ↦
      let n = clamp_size size in
      let f = file_at t k in
      let g = fill_file f name src n in
      let short = clamp_size-lt size in
      inr (
        k,
        rw (ok, found, fs_write_file),
        omega (arith, slot.inside, v.entries),
        λ m.
            rw (ok, found, fs_write_file)
              (view-set t name m k g slot (str_eq_refl name)
                ∙ ap (λ c. if str_eq name m then some c else view t m)
                    (content-fill_file f name src n (omega (arith, (v.files k).buffer)) enough)),
      )
]

-- `fs_write_file` keeps the table valid, whatever the name and the size.
pub write_file-IsValid :
    (t : Table) (name : CString) (src : List ℕ) (size : ℤ)
    → IsValid t
    → IsValid (fs_write_file t name src size).0
unfolding fs_write_file
write_file-IsValid t name src size v = elim (Bool-cases (fs_name_valid name)) [
  | inr bad ↦ rw bad v
  | inl ok ↦ elim (IsSlot-cases t name) [
    | inl (missing, gone, full) ↦ rw (ok, missing, fs_write_file) v
    | inr (k, found, slot, whose) ↦
        let g = fill_file (file_at t k) name src (clamp_size size) in
        rw (ok, found, fs_write_file)
          (set-IsValid t k g v slot.inside
            (fill_file-IsFile (file_at t k) name src (clamp_size size) (v.files k) ok
              (clamp_size-lt size))
            (λ used. slot_alone t name k v whose))
  ]
]
