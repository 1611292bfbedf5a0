-- ===== src/Fs/PathBounds.antt =====
-- kernel.c: the current path stays short, as every directory is the start of some file's name.
use tark_os.Prelude.{
  ℕ, ◌+◌, ◌-◌, ◌≤◌, ◌<◌, ◌≡◌, ap, arith, true, ◌&&◌, leb, ◌==◌, if◌then◌else◌, if_intro, Bool-cases,
  inl, inr, suc, [], ◌∷◌, ◌++◌, length, length-append, length-take, codes, get_or,
}
use tark_os.Text.{CString, str_eq, starts_with, slash}
use tark_os.Text.Search.{starts_with_iff, str_eq→eq}
use tark_os.Fs.{Table, file_at}
use tark_os.Fs.Dirs.{any_under, is_under, skip_slash, fs_dir_exists, path_parent, last_slash}
use tark_os.Fs.Invariant.{IsFile, IsValid}
use tark_os.Fs.Commands.{cd}

starts_with-le : (s p : CString) → starts_with s p ≡ true → length p ≤ length s
starts_with-le s p h =
    let (rest, e) = (starts_with_iff s p).0 h in
    omega (arith, ap (λ (t : CString). length t) e, length-append p rest)

any_under-short :
    (t : Table) (dir : CString)
    → ((j : ℕ) → IsFile (file_at t j))
    → any_under t dir ≡ true
    → length dir < 32
unfolding any_under
any_under-short [] dir files h = absurd (ground (arith, h))
any_under-short (f ∷ fs) dir files h = elim (Bool-cases (f.used && is_under dir f.name)) [
  | inl e ↦
      let under : starts_with f.name dir ≡ true = ground (arith, e) in
      let short : length f.name < 32 = (files 0).short_name in
      omega (arith, starts_with-le f.name dir under, short)
  | inr e ↦ any_under-short fs dir (λ j. files (suc j)) (ground (arith, e, h))
]

skip_slash-le : (path : CString) → length path ≤ length (skip_slash path) + 1
skip_slash-le [] = omega arith
skip_slash-le (c ∷ cs) = ground arith

dir_exists-short :
    (t : Table) (path : CString) → IsValid t → fs_dir_exists t path ≡ true → length path ≤ 32
unfolding fs_dir_exists
dir_exists-short t path v h = elim (Bool-cases (str_eq path (slash ∷ []))) [
  | inl e ↦ omega (arith, ap (λ (p : CString). length p) (str_eq→eq path (slash ∷ []) e))
  | inr e ↦ elim (Bool-cases (length (skip_slash path) == 0)) [
    | inl e' ↦ ground (arith, e', skip_slash-le path)
    | inr e' ↦
        let under : any_under t (skip_slash path) ≡ true = ground (arith, e, e', h) in
        omega (arith, any_under-short t (skip_slash path) v.files under, skip_slash-le path)
  ]
]

path_parent-short : (path : CString) → length path ≤ 32 → length (path_parent path) ≤ 32
unfolding path_parent
path_parent-short path h =
    let i = last_slash path (length path - 1) in
    if_intro (λ (p : CString). length p ≤ 32) (leb (length path) 1) _ _ (λ e. omega arith)
      (λ e.
        if_intro (λ (p : CString). length p ≤ 32) (i == 0) _ _ (λ e'. omega arith)
          (λ e'. omega (arith, length-take i path, h)))

-- `cd` leads from a path of at most 32 bytes to one of at most 32 bytes, however long the argument
-- is, where the table is valid.
pub cd-short :
    (t : Table) (current arg : CString)
    → IsValid t
    → length current ≤ 32
    → length (cd t current arg).0 ≤ 32
unfolding cd
cd-short t current arg v h =
    let new_path =
      if get_or arg 0 0 == slash
      then arg
      else if str_eq current (slash ∷ [])
      then slash ∷ arg
      else current ++ slash ∷ arg in
    let P = λ (r : CString × _). length r.0 ≤ 32 in
    if_intro P (str_eq arg (slash ∷ [])) _ _ (λ e. omega arith)
      (λ e.
        if_intro P (str_eq arg (codes "..")) _ _ (λ e. path_parent-short current h)
          (λ e.
            if_intro P (str_eq arg (codes ".")) _ _ (λ e. h)
              (λ e.
                if_intro P (fs_dir_exists t new_path) _ _ (λ e. dir_exists-short t new_path v e)
                  (λ e. h))))
