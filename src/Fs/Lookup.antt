-- ===== src/Fs/Lookup.antt =====
-- kernel.c: the table of files as a map from names to files.
use tark_os.Prelude.{ℕ, zero, suc, ◌+◌, ◌<◌, ◌≡◌, refl, ap, arith, ◌⊎◌, inl, inr}
use tark_os.Prelude.{Bool, true, false, ◌&&◌, if◌then◌else◌, Bool-cases}
use tark_os.Prelude.{Option, none, some, [], ◌∷◌, length, set}
use native.Mathlib.Nat.{add-zero}
use tark_os.Text.{CString, str_eq}
use tark_os.Text.Search.{str_eq→eq}
use tark_os.Fs.{File, Table, file_at, find_file_from, fs_find_file, find_unused_from, slot_for}

-- `f` is a file in use with the name `n`.
abbrev pub is_named : CString → File → Bool
is_named n f = f.used && str_eq f.name n

-- The file of a name: the first entry that is in use with that name.
unfoldable pub lookup : Table → CString → Option File
lookup [] n = none
lookup (f ∷ fs) n = let rest = lookup fs n in if is_named n f then some f else rest

-- What `fs_find_file` finds at `k` in the table.
abbrev pub IsFirstNamed : Table → CString → ℕ → Type 0
IsFirstNamed t n k =
    (k < length t)
    × (lookup t n ≡ some (file_at t k))
    × (is_named n (file_at t k) ≡ true)
    × ((j : ℕ) → j < k → is_named n (file_at t j) ≡ false)

find_file_from-cases :
    (t : Table) (n : CString) (i : ℕ)
    → ((find_file_from t n i ≡ none) × (lookup t n ≡ none))
      ⊎ ((k : ℕ) × (find_file_from t n i ≡ some (i + k)) × IsFirstNamed t n k)
unfolding find_file_from lookup
find_file_from-cases [] n i = inl (refl, refl)
find_file_from-cases (f ∷ fs) n i = elim (Bool-cases (is_named n f)) [
  | inl e ↦ inr (0, rw (e, add-zero), (omega arith, rw e, e, λ j l. absurd (omega arith)))
  | inr e ↦ elim (find_file_from-cases fs n (i + 1)) [
    | inl (missing, gone) ↦ inl (rw (e, missing), rw (e, gone))
    | inr (k, found, (inside, at, named, first)) ↦
        let place : i + 1 + k ≡ i + suc k = omega arith in
        inr (suc k, rw (e, found, place), (omega arith, rw (e, at), named, earlier e first))
  ]
]
  where
    earlier :
        {k : ℕ}
        → is_named n f ≡ false
        → ((j : ℕ) → j < k → is_named n (file_at fs j) ≡ false)
        → (j : ℕ) → j < suc k
        → is_named n (file_at (f ∷ fs) j) ≡ false
    earlier e first zero l = e
    earlier e first (suc j) l = first j (omega arith)

-- `fs_find_file` returns the number of the first entry in use with the name, and -1 exactly where
-- the name has no file.
pub find_file-cases :
    (t : Table) (n : CString)
    → ((fs_find_file t n ≡ none) × (lookup t n ≡ none))
      ⊎ ((k : ℕ) × (fs_find_file t n ≡ some k) × IsFirstNamed t n k)
unfolding fs_find_file
find_file-cases t n = elim (find_file_from-cases t n 0) [
  | inl h ↦ inl h
  | inr (k, found, h) ↦ let place : 0 + k ≡ k = omega arith in inr (k, rw place at found, h)
]

find_unused_from-cases :
    (t : Table) (i : ℕ)
    → ((find_unused_from t i ≡ none) × ((j : ℕ) → j < length t → (file_at t j).used ≡ true))
      ⊎ ((k : ℕ) × (find_unused_from t i ≡ some (i + k))
          × (k < length t)
          × ((file_at t k).used ≡ false))
unfolding find_unused_from
find_unused_from-cases [] i = inl (refl, λ j l. absurd (omega arith))
find_unused_from-cases (f ∷ fs) i = elim (Bool-cases f.used) [
  | inr e ↦ inr (0, rw (e, add-zero), omega arith, e)
  | inl e ↦ elim (find_unused_from-cases fs (i + 1)) [
    | inl (missing, full) ↦ inl (rw (e, missing), all_used e full)
    | inr (k, found, inside, unused) ↦
        let place : i + 1 + k ≡ i + suc k = omega arith in
        inr (suc k, rw (e, found, place), omega arith, unused)
  ]
]
  where
    all_used :
        f.used ≡ true
        → ((j : ℕ) → j < length fs → (file_at fs j).used ≡ true)
        → (j : ℕ) → j < suc (length fs)
        → (file_at (f ∷ fs) j).used ≡ true
    all_used e full zero l = e
    all_used e full (suc j) l = full j (omega arith)

-- No file of the table has the name.
pub none_named :
    (t : Table) (n : CString) (j : ℕ)
    → lookup t n ≡ none
    → j < length t
    → is_named n (file_at t j) ≡ false
unfolding lookup
none_named [] n j e l = absurd (omega arith)
none_named (f ∷ fs) n zero e l = ground arith
none_named (f ∷ fs) n (suc j) e l = none_named fs n j (ground arith) (omega arith)

-- An entry that a file of name `n` may be written to.
pub record IsSlot (t : Table) (n : CString) (k : ℕ) : Type 0 where
  pub inside : k < length t
  pub free : ((file_at t k).used ≡ false) ⊎ (is_named n (file_at t k) ≡ true)
  pub first : (j : ℕ) → j < k → is_named n (file_at t j) ≡ false

-- `fs_write_file` finds an entry, or no file has the name and all entries are in use.
pub IsSlot-cases :
    (t : Table) (n : CString)
    → ((slot_for t n ≡ none)
        × (lookup t n ≡ none)
        × ((j : ℕ) → j < length t → (file_at t j).used ≡ true))
      ⊎ ((k : ℕ) × (slot_for t n ≡ some k)
          × IsSlot t n k
          × ((lookup t n ≡ none) ⊎ (is_named n (file_at t k) ≡ true)))
unfolding slot_for
IsSlot-cases t n = elim (find_file-cases t n) [
  | inr (k, found, (inside, at, named, first)) ↦ inr (
    k,
    rw (found, slot_for),
    record { inside = inside; free = inr named; first = first },
    inr named,
  )
  | inl (missing, gone) ↦ elim (find_unused_from-cases t 0) [
    | inl (none_left, full) ↦ inl (rw (missing, none_left, slot_for), gone, full)
    | inr (k, found, inside, unused) ↦
        let place : 0 + k ≡ k = omega arith in
        inr (
          k,
          rw (missing, found, place, slot_for),
          record {
            inside = inside;
            free = inl unused;
            first = λ j l. none_named t n j gone (omega arith);
          },
          inl gone,
        )
  ]
]

pub same_name : (n m a : CString) → str_eq a n ≡ true → str_eq a m ≡ str_eq n m
same_name n m a e = ap (λ t. str_eq t m) (str_eq→eq a n e)

-- Writing a file of name `n` into such an entry changes the file of that name, and no other's.
pub lookup-set :
    (t : Table) (n m : CString) (k : ℕ) (g : File)
    → IsSlot t n k
    → is_named n g ≡ true
    → lookup (set t k g) m ≡ (if str_eq n m then some g else lookup t m)
unfolding lookup
lookup-set [] n m k g s named = absurd (omega (arith, s.inside))
lookup-set (f ∷ fs) n m zero g s named =
    ground (arith, s.free, same_name n m g.name, same_name n m f.name)
lookup-set (f ∷ fs) n m (suc k) g s named = ground (
  arith,
  lookup-set fs n m k g
      (record {
        inside = omega (arith, s.inside);
        free = s.free;
        first = λ j l. s.first (suc j) (omega arith);
      })
      named,
  s.first 0 (omega arith),
  (λ (e : str_eq n m ≡ true). ap (str_eq f.name) (str_eq→eq n m e)),
)
