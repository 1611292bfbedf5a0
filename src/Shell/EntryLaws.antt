-- ===== src/Shell/EntryLaws.antt =====
-- kernel.c: which entry of a directory the name of a file gives, in the lists of `ls`.
use tark_os.Prelude.{
  ℕ, zero, suc, ◌+◌, ◌≤◌, ◌≡◌, ◌≢◌, refl, sym, ap, ap₂, ◌∙◌, arith, ◌⊎◌, inl, inr, Bool-cases,
  Option-cases, Bool, true, false, ◌==◌, ==→eq, ==→ne, if◌then◌else◌, none, some, [], ◌∷◌, ◌++◌,
  length, drop, get_or,
}
use mathlib.Core.Path.{subst}
use mathlib.Core.Option.{some-injective}
use tark_os.Fs.{File}
use tark_os.Text.{CString, starts_with, slash}
use tark_os.Text.Search.{starts_with_iff, starts_with-append}
use tark_os.Shell.Listing.{component, behind_prefix, entry_of}

-- No byte of a name is a slash.
unfoldable pub HasNoSlash : CString → Type 0
HasNoSlash [] = Unit
HasNoSlash (c ∷ cs) = (c ≢ slash) × HasNoSlash cs

-- A text that is empty or goes on with a slash.
unfoldable pub IsEnd : CString → Type 0
IsEnd [] = Unit
IsEnd (c ∷ cs) = c ≡ slash

-- The entry is what stands before the first slash of a name, or the first `n` bytes of that.
abbrev pub IsFirst : ℕ → CString → CString → Type 0
IsFirst n name entry =
    (tail : CString) × (name ≡ entry ++ tail)
    × HasNoSlash entry
    × (length entry ≤ n)
    × (IsEnd tail ⊎ (length entry ≡ n))

component-IsFirst : (n : ℕ) (name : CString) → IsFirst n name (component n name).0
unfolding component HasNoSlash IsEnd
component-IsFirst n [] = ([], refl, tt, omega arith, inl tt)
component-IsFirst zero (c ∷ cs) = (c ∷ cs, refl, tt, omega arith, inr refl)
component-IsFirst (suc n) (c ∷ cs) = elim (Bool-cases (c == slash)) [
  | inl e ↦ rw e (c ∷ cs, refl, tt, omega arith, inl (==→eq c slash e))
  | inr e ↦
      let (tail, same, plain, short, ends) = component-IsFirst n cs in
      rw e (
        tail,
        ap (◌∷◌ c) same,
        (==→ne c slash e, plain),
        omega (arith, short),
        elim ends [ inl at ↦ inl at | inr full ↦ inr (ap (λ k. suc k) full) ],
      )
]

component-append :
    (n : ℕ) (entry tail : CString)
    → HasNoSlash entry
    → length entry ≤ n
    → IsEnd tail ⊎ (length entry ≡ n)
    → (component n (entry ++ tail)).0 ≡ entry
unfolding component HasNoSlash IsEnd
component-append n [] [] plain short ends = refl
component-append zero [] (c ∷ tail) plain short ends = refl
component-append (suc n) [] (c ∷ tail) plain short (inl at) =
    let stop : (c == slash) ≡ true = ground arith in rw stop refl
component-append (suc n) [] (c ∷ tail) plain short (inr full) = absurd (omega (arith, full))
component-append zero (c ∷ entry) tail plain short ends = absurd (omega (arith, short))
component-append (suc n) (c ∷ entry) tail plain short ends =
    let go : (c == slash) ≡ false = ground (arith, plain.0) in
    let rest =
      component-append n entry tail plain.1 (omega (arith, short))
        (elim ends [ inl at ↦ inl at | inr full ↦ inr (omega (arith, full)) ]) in
    rw go (ap (◌∷◌ c) rest)

-- The entry of a name is the only one that is `IsFirst`.
first-entry : (n : ℕ) (name entry : CString) → IsFirst n name entry → (component n name).0 ≡ entry
first-entry n name entry (tail, same, plain, short, ends) =
    ap (λ t. (component n t).0) same ∙ component-append n entry tail plain short ends

-- The name is `rest` behind the directory's prefix and a slash; in the root it is the whole name.
abbrev pub IsBehind : CString → CString → CString → Type 0
IsBehind prefix name rest =
    ((prefix ≡ []) × (name ≡ rest))
    ⊎ ((prefix ≢ []) × (rest ≢ []) × (name ≡ prefix ++ slash ∷ rest))

get_or-at : (p r : CString) → get_or (p ++ r) (length p) 0 ≡ get_or r 0 0
get_or-at [] r = refl
get_or-at (c ∷ p) r = get_or-at p r

drop-past : (p : CString) (c : ℕ) (r : CString) → drop (suc (length p)) (p ++ c ∷ r) ≡ r
drop-past [] c r = refl
drop-past (x ∷ p) c r = drop-past p c r

-- A longer name than the prefix, with the byte `c` behind it.
behind-append :
    (p : ℕ) (ps : CString) (c : ℕ) (r : CString)
    → behind_prefix (p ∷ ps) ((p ∷ ps) ++ c ∷ r)
      ≡ (if c == slash then (if length r == 0 then none else some r) else none)
unfolding behind_prefix
behind-append p ps c r =
    let prefix = p ∷ ps in
    let some_prefix : (length prefix == 0) ≡ false = ground arith in
    let past : length prefix + 1 ≡ suc (length prefix) = omega arith in
    rw
      (
        some_prefix,
        past,
        drop-past prefix c r,
        starts_with-append prefix (c ∷ r),
        get_or-at prefix (c ∷ r),
      )
      refl

behind_prefix-IsBehind :
    (prefix name rest : CString) → behind_prefix prefix name ≡ some rest → IsBehind prefix name rest
unfolding behind_prefix
behind_prefix-IsBehind [] name rest h = inl (refl, some-injective name rest h)
behind_prefix-IsBehind (p ∷ ps) name rest h = elim (Bool-cases (starts_with name (p ∷ ps))) [
  | inr other ↦
      let some_prefix : (length (p ∷ ps) == 0) ≡ false = ground arith in
      cc (rw (some_prefix, other) at h)
  | inl under ↦
      let (r, same) = (starts_with_iff name (p ∷ ps)).0 under in
      behind r same (sym (ap (behind_prefix (p ∷ ps)) same) ∙ h)
]
  where
    behind :
        (r : CString)
        → name ≡ (p ∷ ps) ++ r
        → behind_prefix (p ∷ ps) ((p ∷ ps) ++ r) ≡ some rest
        → IsBehind (p ∷ ps) name rest
    behind [] same e =
        let some_prefix : (length (p ∷ ps) == 0) ≡ false = ground arith in
        cc (rw (some_prefix, get_or-at (p ∷ ps) [], starts_with-append (p ∷ ps) []) at e)
    behind (c ∷ []) same e =
        let nothing = sym (behind-append p ps c []) ∙ e in
        elim (Bool-cases (c == slash)) [
          | inl at ↦ cc (rw at at nothing)
          | inr at ↦ cc (rw at at nothing)
        ]
    behind (c ∷ d ∷ ds) same e =
        let some_rest : (length (d ∷ ds) == 0) ≡ false = ground arith in
        let one = sym (behind-append p ps c (d ∷ ds)) ∙ e in
        elim (Bool-cases (c == slash)) [
          | inr at ↦ cc (rw at at one)
          | inl at ↦
              let found : d ∷ ds ≡ rest =
                some-injective (d ∷ ds) rest (rw (at, some_rest) at one) in
              let whole : name ≡ (p ∷ ps) ++ slash ∷ rest =
                same ∙ ap₂ (λ x r. (p ∷ ps) ++ x ∷ r) (==→eq c slash at) found in
              inr ((λ none_left. cc none_left), (λ none_left. cc (found ∙ none_left)), whole)
        ]

IsBehind-behind_prefix :
    (prefix name rest : CString) → IsBehind prefix name rest → behind_prefix prefix name ≡ some rest
unfolding behind_prefix
IsBehind-behind_prefix [] name rest (inl (root, same)) = ap (λ n. some n) same
IsBehind-behind_prefix [] name rest (inr (not_root, more, same)) = absurd (not_root refl)
IsBehind-behind_prefix (p ∷ ps) name rest (inl (root, same)) = cc root
IsBehind-behind_prefix (p ∷ ps) name [] (inr (not_root, more, same)) = absurd (more refl)
IsBehind-behind_prefix (p ∷ ps) name (d ∷ ds) (inr (not_root, more, same)) =
    let some_rest : (length (d ∷ ds) == 0) ≡ false = ground arith in
    ap (behind_prefix (p ∷ ps)) same ∙ behind-append p ps slash (d ∷ ds) ∙ rw some_rest refl

-- A file in use whose name, behind the prefix, begins with the entry: the part before the next
-- slash, of at most 31 bytes.
abbrev pub Gives : CString → CString → File → Type 0
Gives prefix entry f =
    (f.used ≡ true) × (rest : CString) × IsBehind prefix f.name rest × IsFirst 31 rest entry

pub entry_of-Gives :
    (prefix : CString) (f : File) (entry : CString) (is_dir : Bool)
    → entry_of prefix f ≡ some (entry, is_dir)
    → Gives prefix entry f
unfolding entry_of
entry_of-Gives prefix f entry is_dir h = elim (Bool-cases f.used) [
  | inr unused ↦ cc (rw unused at h)
  | inl used ↦ elim (Option-cases (behind_prefix prefix f.name)) [
    | inl other ↦ cc (rw (used, other) at h)
    | inr (rest, found) ↦
        let here : (component 31 rest).0 ≡ entry =
          ap (λ (r : CString × Bool). r.0)
            (some-injective (component 31 rest) (entry, is_dir) (rw (used, found) at h)) in
        (
          used,
          rest,
          behind_prefix-IsBehind prefix f.name rest found,
          subst (IsFirst 31 rest) here (component-IsFirst 31 rest),
        )
  ]
]

pub Gives-entry_of :
    (prefix : CString) (f : File) (entry : CString)
    → Gives prefix entry f
    → (is_dir : Bool) × (entry_of prefix f ≡ some (entry, is_dir))
unfolding entry_of
Gives-entry_of prefix f entry (used, rest, behind, first) =
    let found = IsBehind-behind_prefix prefix f.name rest behind in
    (
      (component 31 rest).1,
      rw (used, found)
          (ap (λ e. some (e, (component 31 rest).1)) (first-entry 31 rest entry first)),
    )
