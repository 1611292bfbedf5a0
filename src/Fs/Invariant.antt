-- ===== src/Fs/Invariant.antt =====
-- kernel.c: the invariant of the table of files, and the steps that keep it.
use tark_os.Prelude.{ℕ, zero, suc, ◌≤◌, ◌<◌, ◌≡◌, ◌≢◌, sym, ◌∙◌, arith, ◌⊎◌, inl, inr}
use tark_os.Prelude.{true, false, ◌==◌, ltb, if◌then◌else◌, Bool-cases, ==→eq, ==→ne}
use tark_os.Prelude.{none, [], ◌∷◌, length, length-set, set, get_or}
use tark_os.Prelude.{get_or-set_self, get_or-set_ne}
use tark_os.Text.{CString}
use tark_os.Text.Search.{str_eq→eq, str_eq_refl}
use tark_os.Fs.{File, Table, empty_file, file_at, max_files, max_file_size}
use tark_os.Fs.Lookup.{is_named, lookup, none_named}

-- The name fits `char name[32]` with its NUL, the bytes fit the buffer with theirs, and the NUL
-- behind them is there.
pub record IsFile (f : File) : Type 0 where
  pub short_name : length f.name < 32
  pub buffer : length f.contents ≡ max_file_size
  pub fits : f.size < max_file_size
  pub ended : get_or f.contents f.size 0 ≡ 0

-- All entries are well-formed, and no two files in use have one name.
pub record IsValid (t : Table) : Type 0 where
  pub entries : length t ≡ max_files
  pub files : (j : ℕ) → IsFile (file_at t j)
  pub unique :
      (i j : ℕ)
      → (file_at t i).used ≡ true
      → (file_at t j).used ≡ true
      → (file_at t i).name ≡ (file_at t j).name
      → i ≡ j

file_at-set :
    (t : Table) (k j : ℕ) (g : File)
    → k < length t
    → file_at (set t k g) j ≡ (if k == j then g else file_at t j)
file_at-set t k j g h = elim (Bool-cases (k == j)) [
  | inl e ↦ let here : k ≡ j = ==→eq k j e in rw (e, ← here) (get_or-set_self t k g empty_file h)
  | inr e ↦ rw e (get_or-set_ne t k j g empty_file (==→ne k j e))
]

is_named_self : (f : File) → f.used ≡ true → is_named f.name f ≡ true
is_named_self f h = rw h (str_eq_refl f.name)

-- Replacing an entry by a well-formed file keeps the invariant, if no other file has its name.
pub set-IsValid :
    (t : Table) (k : ℕ) (g : File)
    → IsValid t
    → k < length t
    → IsFile g
    → (g.used ≡ true → (j : ℕ) → k ≢ j → is_named g.name (file_at t j) ≡ false)
    → IsValid (set t k g)
set-IsValid t k g v h good alone = record {
  entries = length-set t k g ∙ v.entries;
  files = λ j. rw (file_at-set t k j g h) (pick j (Bool-cases (k == j)));
  unique = λ i j.
      rw (file_at-set t k i g h, file_at-set t k j g h)
        (apart i j (Bool-cases (k == i)) (Bool-cases (k == j)));
}
  where
    pick :
        (j : ℕ)
        → ((k == j) ≡ true) ⊎ ((k == j) ≡ false)
        → IsFile (if k == j then g else file_at t j)
    pick j (inl e) = rw e good
    pick j (inr e) = rw e (v.files j)

    clash :
        (j : ℕ)
        → (k == j) ≡ false
        → g.used ≡ true
        → (file_at t j).used ≡ true
        → g.name ≡ (file_at t j).name
        → ⊥
    clash j e used used' same =
        let named : is_named g.name (file_at t j) ≡ true =
          rw same (is_named_self (file_at t j) used') in
        cc (alone used j (==→ne k j e))

    apart :
        (i j : ℕ)
        → ((k == i) ≡ true) ⊎ ((k == i) ≡ false)
        → ((k == j) ≡ true) ⊎ ((k == j) ≡ false)
        → (if k == i then g else file_at t i).used ≡ true
        → (if k == j then g else file_at t j).used ≡ true
        → (if k == i then g else file_at t i).name ≡ (if k == j then g else file_at t j).name
        → i ≡ j
    apart i j (inl e) (inl e') = λ a b c. sym (==→eq k i e) ∙ ==→eq k j e'
    apart i j (inl e) (inr e') = rw (e, e') λ a b c. absurd (clash j e' a b c)
    apart i j (inr e) (inl e') = rw (e, e') λ a b c. absurd (clash i e b a (sym c))
    apart i j (inr e) (inr e') = rw (e, e') (v.unique i j)

-- The entry that `fs_write_file` chooses: every other entry has another name.
pub slot_alone :
    (t : Table) (n : CString) (k : ℕ)
    → IsValid t
    → (lookup t n ≡ none) ⊎ (is_named n (file_at t k) ≡ true)
    → (j : ℕ) → k ≢ j
    → is_named n (file_at t j) ≡ false
slot_alone t n k v (inl gone) j ne = elim (Bool-cases (ltb j (length t))) [
  | inl inside ↦ none_named t n j gone (ground arith)
  | inr outside ↦ elim (Bool-cases (is_named n (file_at t j))) [
    | inr e ↦ e
    | inl e ↦ absurd (out_of_range t j (ground arith) (ground arith))
  ]
]
  where
    out_of_range : (t : Table) (j : ℕ) → length t ≤ j → (file_at t j).used ≡ true → ⊥
    out_of_range [] j l used = cc used
    out_of_range (f ∷ fs) zero l used = omega arith
    out_of_range (f ∷ fs) (suc j) l used = out_of_range fs j (omega arith) used
slot_alone t n k v (inr named) j ne = elim (Bool-cases (is_named n (file_at t j))) [
  | inr e ↦ e
  | inl e ↦
      let a : (file_at t k).used ≡ true = ground arith in
      let b : (file_at t j).used ≡ true = ground arith in
      let x : (file_at t k).name ≡ n = str_eq→eq (file_at t k).name n (ground arith) in
      let y : (file_at t j).name ≡ n = str_eq→eq (file_at t j).name n (ground arith) in
      absurd (ne (v.unique k j a b (x ∙ sym y)))
]
