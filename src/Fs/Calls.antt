-- ===== src/Fs/Calls.antt =====
-- kernel.c: the table of files from `fs_init` on, under any sequence of calls of the RAM disk's
-- functions and of the commands that rename.
use tark_os.Prelude.{ℕ, zero, suc, ◌-◌, ◌<◌, ◌≡◌, ◌≢◌, refl, sym, ◌∙◌, ap, arith, inl, inr}
use tark_os.Prelude.{true, false, codes, List, [], ◌∷◌, ◌++◌, length, get_or}
use tark_os.Prelude.{replicate, length-replicate, get_or-replicate_self, length-append}
use tark_os.Prelude.Int.{ℤ}
use tark_os.Text.{CString}
use tark_os.Fs.{
  File, Table, empty_file, file_at, fs_name_valid, fs_write_file, fs_append_file, fs_delete_file,
  fs_init, file_of, max_files, max_file_size, system_text, test_text,
}
use tark_os.Fs.Lookup.{find_file-cases}
use tark_os.Fs.Invariant.{IsFile, IsValid, set-IsValid, slot_alone}
use tark_os.Fs.Map.{write_file-IsValid}
use tark_os.Fs.Change.{append_file-IsValid, delete_file-IsValid}
use tark_os.Fs.Dirs.{fs_mkdir, fs_rmdir}
use tark_os.Fs.DirLaws.{mkdir-IsValid, rmdir-IsValid}
use tark_os.Fs.Commands.{mv, renamed-fits}

-- One call. `mv` names its destination by `build_path`.
pub data Step (t : Table) : Table → Type 0 where
  write_file : (name : CString) (src : List ℕ) (size : ℤ) → Step t (fs_write_file t name src size).0
  append_file :
      (name : CString) (src : List ℕ) (size : ℤ) → Step t (fs_append_file t name src size).0
  delete_file : (name : CString) → Step t (fs_delete_file t name).0
  mkdir : (path : CString) → Step t (fs_mkdir t path).0
  rmdir : (path : CString) → Step t (fs_rmdir t path).0
  rename : (src dest : CString) → fs_name_valid dest ≡ true → Step t (mv t src dest).0

pub data Reach : Table → Type 0 where
  booted : Reach fs_init
  next : {t u : Table} → Reach t → Step t u → Reach u

-- `mv` to a valid name keeps the table valid.
pub mv-IsValid :
    (t : Table) (src dest : CString)
    → fs_name_valid dest ≡ true
    → IsValid t
    → IsValid (mv t src dest).0
unfolding mv fs_name_valid
mv-IsValid t src dest ok v = elim (find_file-cases t src) [
  | inl (missing, gone) ↦ rw (missing, mv) v
  | inr (k, found, h) ↦ elim (find_file-cases t dest) [
    | inr (d, found', h') ↦ rw (found, mv, found') v
    | inl (missing, gone) ↦
        let short : length dest < 32 = ground arith in
        rw (found, mv, missing, renamed-fits (file_at t k) dest short)
          (set-IsValid t k (record (file_at t k) { name = dest }) v h.0
            (let f = v.files k in
              record {
                short_name = ground arith;
                buffer = f.buffer;
                fits = f.fits;
                ended = f.ended;
              })
            (λ used. slot_alone t dest k v (inl gone)))
  ]
]

Step-IsValid : {t u : Table} → Step t u → IsValid t → IsValid u
Step-IsValid {t} (write_file name src size) v = write_file-IsValid t name src size v
Step-IsValid {t} (append_file name src size) v = append_file-IsValid t name src size v
Step-IsValid {t} (delete_file name) v = delete_file-IsValid t name v
Step-IsValid {t} (mkdir path) v = mkdir-IsValid t path v
Step-IsValid {t} (rmdir path) v = rmdir-IsValid t path v
Step-IsValid {t} (rename src dest ok) v = mv-IsValid t src dest ok v

get_or-append_end : (p q : List ℕ) (d : ℕ) → get_or (p ++ q) (length p) d ≡ get_or q 0 d
get_or-append_end [] q d = refl
get_or-append_end (x ∷ p) q d = get_or-append_end p q d

file_of-IsFile :
    (name : CString) (text : List ℕ)
    → length name < 32
    → length text < max_file_size
    → IsFile (file_of name text)
file_of-IsFile name text short fits = record {
  short_name = short;
  buffer = omega (
    arith,
    length-append text (replicate (max_file_size - length text) 0),
    length-replicate {A = ℕ} (max_file_size - length text) 0,
  );
  fits = fits;
  ended =
      get_or-append_end text (replicate (max_file_size - length text) 0) 0
      ∙ get_or-replicate_self {A = ℕ} (max_file_size - length text) 0 0;
}

empty_file-IsFile : IsFile empty_file
empty_file-IsFile = record {
  short_name = omega arith;
  buffer = length-replicate {A = ℕ} max_file_size 0;
  fits = omega arith;
  ended = get_or-replicate_self {A = ℕ} max_file_size 0 0;
}

-- A table of entries of zeros behind two files with different names.
two_files-IsValid :
    (f g : File)
    → IsFile f
    → IsFile g
    → f.name ≢ g.name
    → IsValid (f ∷ g ∷ replicate (max_files - 2) empty_file)
two_files-IsValid f g vf vg ne = record {
  entries = ap (λ n. suc (suc n)) (length-replicate (max_files - 2) empty_file);
  files = files;
  unique = unique;
}
  where
    rest : (j : ℕ) → file_at (replicate (max_files - 2) empty_file) j ≡ empty_file
    rest j = get_or-replicate_self (max_files - 2) j empty_file

    files : (j : ℕ) → IsFile (file_at (f ∷ g ∷ replicate (max_files - 2) empty_file) j)
    files zero = vf
    files (suc zero) = vg
    files (suc (suc j)) = rw (rest j) empty_file-IsFile

    unused : (j : ℕ) → (file_at (replicate (max_files - 2) empty_file) j).used ≡ false
    unused j = ap (λ (h : File). h.used) (rest j)

    unique :
        (i j : ℕ)
        → (file_at (f ∷ g ∷ replicate (max_files - 2) empty_file) i).used ≡ true
        → (file_at (f ∷ g ∷ replicate (max_files - 2) empty_file) j).used ≡ true
        → (file_at (f ∷ g ∷ replicate (max_files - 2) empty_file) i).name
          ≡ (file_at (f ∷ g ∷ replicate (max_files - 2) empty_file) j).name
        → i ≡ j
    unique zero zero a b c = refl
    unique zero (suc zero) a b c = absurd (ne c)
    unique (suc zero) zero a b c = absurd (ne (sym c))
    unique (suc zero) (suc zero) a b c = refl
    unique (suc (suc i)) j a b c = absurd (cc (sym (unused i) ∙ a))
    unique zero (suc (suc j)) a b c = absurd (cc (sym (unused j) ∙ b))
    unique (suc zero) (suc (suc j)) a b c = absurd (cc (sym (unused j) ∙ b))

pub init-IsValid : IsValid fs_init
unfolding fs_init
init-IsValid =
    two_files-IsValid _ _
      (file_of-IsFile (codes "System.sys") system_text (omega arith) (omega arith))
      (file_of-IsFile (codes "test.txt") test_text (omega arith) (omega arith)) cc

-- Every table that a sequence of writes, appends, deletions, `mkdir`, `rmdir` and renamings leads to
-- from `fs_init` is valid, if the new name of each renaming is one that `fs_name_valid` accepts, as
-- every path that `build_path` gives: names and contents fit their buffers with a NUL behind them,
-- and no two files have one name. A renaming to what an unset path buffer holds is left out.
pub from_init-IsValid : {t : Table} → Reach t → IsValid t
from_init-IsValid booted = init-IsValid
from_init-IsValid (next r st) = Step-IsValid st (from_init-IsValid r)
