-- ===== src/Fs/DirLaws.antt =====
-- kernel.c: what making and removing a directory does to the files and to the directories.
use tark_os.Prelude.{ℕ, zero, suc, ◌+◌, ◌≡◌, ◌≢◌, refl, ◌∙◌, ap, arith, ◌⊎◌, inl, inr}
use tark_os.Prelude.{Option-cases, true, false, not, ◌&&◌, ◌==◌, leb, if◌then◌else◌, Bool-cases}
use tark_os.Prelude.{none, some, [], ◌∷◌, ◌++◌, length, get_or}
use tark_os.Prelude.Int.{pos}
use tark_os.Text.{CString, str_eq, slash}
use tark_os.Text.Search.{str_eq→eq, str_eq_refl, starts_with-append}
use tark_os.Fs.{File, Table, file_at, fs_name_valid, fs_write_file}
use tark_os.Fs.Lookup.{is_named, lookup, find_file-cases}
use tark_os.Fs.Invariant.{IsValid}
use tark_os.Fs.Map.{write_file-Writes, write_file-IsValid}
use tark_os.Fs.Dirs.{
  is_under, any_under, fs_dir_exists, strip_slashes, dir_mark, make_mark, fs_mkdir, remove_under,
  fs_rmdir, is_code_ok,
}

-- A path followed by a slash lies under the directory of that path.
is_under-append : (dir rest : CString) → is_under dir (dir ++ (slash ∷ rest)) ≡ true
is_under-append dir rest = rw (starts_with-append dir (slash ∷ rest), at_end dir rest) refl
  where
    at_end : (dir rest : CString) → get_or (dir ++ (slash ∷ rest)) (length dir) 0 ≡ slash
    at_end [] rest = refl
    at_end (c ∷ dir) rest = at_end dir rest

any_under_of_lookup :
    (t : Table) (dir n : CString) (f : File)
    → lookup t n ≡ some f
    → is_under dir n ≡ true
    → any_under t dir ≡ true
unfolding lookup any_under
any_under_of_lookup [] dir n f e u = cc
any_under_of_lookup (g ∷ t) dir n f e u = elim (Bool-cases (is_named n g)) [
  | inl named ↦
      let same : g.name ≡ n = str_eq→eq g.name n (ground arith) in
      let under : is_under dir g.name ≡ true = ap (is_under dir) same ∙ u in
      let used : g.used ≡ true = ground arith in rw (used, under) refl
  | inr other ↦ rw (any_under_of_lookup t dir n f (rw other at e) u) (ground arith)
]

-- A mark that was made, or was there, is a file of the table.
mark_made :
    (t : Table) (meta : CString)
    → IsValid t
    → (make_mark t meta).1 ≡ true
    → (f : File) × (lookup (make_mark t meta).0 meta ≡ some f)
unfolding make_mark
mark_made t meta v = elim (find_file-cases t meta) [
  | inr (k, found, h) ↦ rw (found, make_mark) λ made. (file_at t k, h.1)
  | inl (missing, gone) ↦ rw (missing, make_mark) (written (Bool-cases (fs_name_valid meta)))
]
  where
    written :
        ((fs_name_valid meta ≡ true) ⊎ (fs_name_valid meta ≡ false))
        → is_code_ok (fs_write_file t meta [] (pos 0)).1 ≡ true
        → (f : File) × (lookup (fs_write_file t meta [] (pos 0)).0 meta ≡ some f)
    written (inr bad) = rw (bad, fs_write_file) λ made. cc
    written (inl ok) = elim (write_file-Writes t meta [] (pos 0) v ok (omega arith)) [
      | inl (full, gone, taken) ↦ rw full λ made. cc
      | inr (id, code, inside, stored) ↦ λ made.
          let here = rw (str_eq_refl meta) at (stored meta) in
          elim (Option-cases (lookup (fs_write_file t meta [] (pos 0)).0 meta)) [
            | inr found ↦ found
            | inl e ↦ cc (rw e at here)
          ]
    ]

dir_exists_under :
    (t : Table) (dir : CString) → any_under t dir ≡ true → fs_dir_exists t (slash ∷ dir) ≡ true
unfolding fs_dir_exists
dir_exists_under t dir h = rw h (ground arith)

-- After a call of `fs_mkdir` that reports success on a valid table, the directory exists: its path
-- is the given one without the slashes at its end.
pub dir_exists-mkdir :
    (t : Table) (path : CString)
    → IsValid t
    → (fs_mkdir t path).1 ≡ true
    → fs_dir_exists (fs_mkdir t path).0 (slash ∷ strip_slashes path) ≡ true
unfolding fs_mkdir
dir_exists-mkdir t path v =
    let base = strip_slashes path in
    elim (Bool-cases (length base == 0)) [
      | inl empty ↦ rw empty λ made. cc
      | inr some_name ↦ elim (Bool-cases (leb 32 (length base + 5))) [
        | inl long ↦ rw (some_name, long) λ made. cc
        | inr short ↦
            rw (some_name, short)
              λ made.
                let (f, found) = mark_made t (base ++ dir_mark) v made in
                dir_exists_under (make_mark t (base ++ dir_mark)).0 base (
                  any_under_of_lookup (make_mark t (base ++ dir_mark)).0 base (base ++ dir_mark) f
                    found (is_under-append base _))
      ]
    ]

-- `fs_mkdir` keeps the table valid.
pub mkdir-IsValid : (t : Table) (path : CString) → IsValid t → IsValid (fs_mkdir t path).0
unfolding fs_mkdir make_mark
mkdir-IsValid t path v =
    let base = strip_slashes path in
    elim (Bool-cases (length base == 0)) [
      | inl empty ↦ rw empty v
      | inr some_name ↦ elim (Bool-cases (leb 32 (length base + 5))) [
        | inl long ↦ rw (some_name, long) v
        | inr short ↦
            rw (some_name, short)
              (elim (find_file-cases t (base ++ dir_mark)) [
                | inr (k, found, h) ↦ rw (found, make_mark) v
                | inl (missing, gone) ↦
                    rw (missing, make_mark) (write_file-IsValid t (base ++ dir_mark) [] (pos 0) v)
              ])
      ]
    ]

-- An entry after `remove_under`.
file_at-remove_under :
    (t : Table) (dir : CString) (j : ℕ)
    → file_at (remove_under t dir).0 j
      ≡ record (file_at t j) { used = (file_at t j).used && not (is_under dir (file_at t j).name) }
unfolding remove_under
file_at-remove_under [] dir j = refl
file_at-remove_under (f ∷ fs) dir zero = ground arith
file_at-remove_under (f ∷ fs) dir (suc j) = elim (Bool-cases (f.used && is_under dir f.name)) [
  | inl e ↦ rw e (file_at-remove_under fs dir j)
  | inr e ↦ rw e (file_at-remove_under fs dir j)
]

length-remove_under : (t : Table) (dir : CString) → length (remove_under t dir).0 ≡ length t
unfolding remove_under
length-remove_under [] dir = refl
length-remove_under (f ∷ fs) dir = ground (arith, length-remove_under fs dir)

lookup-remove_under :
    (t : Table) (dir m : CString)
    → lookup (remove_under t dir).0 m ≡ (if is_under dir m then none else lookup t m)
unfolding remove_under lookup
lookup-remove_under [] dir m = ground arith
lookup-remove_under (f ∷ fs) dir m = ground (
  arith,
  lookup-remove_under fs dir m,
  λ (e : str_eq f.name m ≡ true). ap (is_under dir) (str_eq→eq f.name m e),
)

any_under-remove_under : (t : Table) (dir : CString) → any_under (remove_under t dir).0 dir ≡ false
unfolding remove_under any_under
any_under-remove_under [] dir = refl
any_under-remove_under (f ∷ fs) dir = ground (arith, any_under-remove_under fs dir)

-- For a path that is not only slashes, `fs_rmdir` removes exactly the files under the directory
-- from the map: its path is the given one without the slashes at its end.
pub lookup-rmdir :
    (t : Table) (path m : CString)
    → strip_slashes path ≢ []
    → lookup (fs_rmdir t path).0 m ≡ (if is_under (strip_slashes path) m then none else lookup t m)
unfolding fs_rmdir
lookup-rmdir t path m some_name =
    rw (not_empty (strip_slashes path) some_name) (lookup-remove_under t (strip_slashes path) m)
  where
    not_empty : (s : CString) → s ≢ [] → (length s == 0) ≡ false
    not_empty [] ne = absurd (ne refl)
    not_empty (c ∷ s) ne = ground arith

-- `fs_rmdir` keeps the table valid.
pub rmdir-IsValid : (t : Table) (path : CString) → IsValid t → IsValid (fs_rmdir t path).0
unfolding fs_rmdir
rmdir-IsValid t path v =
    let dir = strip_slashes path in
    elim (Bool-cases (length dir == 0)) [
      | inl empty ↦ rw empty v
      | inr some_name ↦ rw some_name (record {
        entries = length-remove_under t dir ∙ v.entries;
        files = λ j. rw (file_at-remove_under t dir j) (
            let f = v.files j in
            record {
              short_name = f.short_name;
              buffer = f.buffer;
              fits = f.fits;
              ended = f.ended;
            });
        unique = λ i j.
            rw (file_at-remove_under t dir i, file_at-remove_under t dir j)
              λ a b c. v.unique i j (ground arith) (ground arith) c;
      })
    ]
