-- ===== src/Shell/ListingLaws.antt =====
-- kernel.c: what `ls` shows of a directory.
use tark_os.Prelude.{
  ℕ, ◌≡◌, refl, sym, ap, ◌∙◌, arith, Bool, true, false, ◌||◌, if◌then◌else◌, Option, none, some,
  List, [], ◌∷◌, ◌++◌, codes, Bool-cases, inl, inr, ◌/◌, if_intro,
}
use tark_os.Text.{CString, str_eq}
use tark_os.Text.Search.{str_eq→eq, str_eq_refl}
use tark_os.Prelude.Int.{pos}
use tark_os.Clib.Number.{kernel_itoa}
use tark_os.Fs.{File, Table}
use tark_os.Console.{Console, set_color, print}
use tark_os.Console.Text.{IsValid, print-IsValid}
use tark_os.Console.Screen.{set_color-IsValid, print_all-IsValid}
use tark_os.Shell.Help.{is_among}
use tark_os.Shell.Listing.{entry_of, show_entry, list_from, list_prefix}

-- No entry stands in the list twice.
unfoldable pub IsDistinct : List CString → Type 0
IsDistinct [] = Unit
IsDistinct (x ∷ xs) = (is_among xs x ≡ false) × IsDistinct xs

-- The file gives this entry.
unfoldable pub gives : CString → CString → File → Bool
gives prefix entry f = elim (entry_of prefix f) [ none ↦ false | some e ↦ str_eq entry e.0 ]

-- Some file of the table gives this entry.
unfoldable pub any_gives : CString → CString → Table → Bool
unfolding gives
any_gives prefix entry [] = false
any_gives prefix entry (f ∷ fs) = gives prefix entry f || any_gives prefix entry fs

is_among-append :
    (xs ys : List CString) (e : CString) → is_among (xs ++ ys) e ≡ (is_among xs e || is_among ys e)
unfolding is_among
is_among-append [] ys e = refl
is_among-append (x ∷ xs) ys e =
    ap (λ rest. if str_eq e x then true else rest) (is_among-append xs ys e)
    ∙ if_or (str_eq e x) (is_among xs e) (is_among ys e)
  where
    if_or : (b c d : Bool) → (if b then true else (c || d)) ≡ ((if b then true else c) || d)
    if_or true c d = refl
    if_or false c d = refl

str_eq_comm : (a b : CString) → str_eq a b ≡ str_eq b a
str_eq_comm a b = elim (Bool-cases (str_eq a b)) [
  | inl e ↦ let same : a ≡ b = str_eq→eq a b e in rw same refl
  | inr e ↦ elim (Bool-cases (str_eq b a)) [
    | inl e' ↦
        let same : b ≡ a = str_eq→eq b a e' in
        absurd (ground (arith, e, str_eq_refl a, ap (str_eq a) same))
    | inr e' ↦ e ∙ sym e'
  ]
]

if_false : (b c : Bool) → (if b then true else c) ≡ false → (b ≡ false) × (c ≡ false)
if_false true c h = absurd (ground (arith, h))
if_false false c h = (refl, h)

IsDistinct-append :
    (xs : List CString) (e : CString)
    → IsDistinct xs
    → is_among xs e ≡ false
    → IsDistinct (xs ++ e ∷ [])
unfolding IsDistinct is_among
IsDistinct-append [] e d h = (refl, tt)
IsDistinct-append (x ∷ xs) e d h =
    let (other, rest) = if_false (str_eq e x) (is_among xs e) h in
    let new : str_eq x e ≡ false = str_eq_comm x e ∙ other in
    (is_among-append xs (e ∷ []) x ∙ rw (d.0, new) refl, IsDistinct-append xs e d.1 rest)

-- The entries shown at the end: those shown before and those that the files give, each once.
abbrev pub Shows : CString → Table → List CString → Console × List CString → Type 0
Shows prefix t shown r =
    IsDistinct r.1 × ((e : CString) → is_among r.1 e ≡ (is_among shown e || any_gives prefix e t))

-- The same with the files after the first, which gives `here`.
abbrev ShowsMore :
    CString → Table → Option (CString × Bool) → List CString → Console × List CString → Type 0
ShowsMore prefix fs here shown r =
    IsDistinct r.1
    × ((e : CString)
        → is_among r.1 e ≡ (
            is_among shown e
            || ((elim here [ none ↦ false | some p ↦ str_eq e p.0 ]) || any_gives prefix e fs)))

module _ (prefix : CString) (fs : Table) where
  -- The rest of the loop, from any list of entries.
  abbrev Rest : Type 0
  Rest =
      (shown : List CString) (s : Console)
      → IsDistinct shown
      → Shows prefix fs shown (list_from prefix fs shown s)

  entry-Shows :
      (rest : Rest) (entry : CString) (is_dir : Bool) (shown : List CString) (s s' : Console)
      → IsDistinct shown
      → (dup : Bool) → is_among shown entry ≡ dup
      → ShowsMore prefix fs (some (entry, is_dir)) shown (elim dup [
        | true ↦ list_from prefix fs shown s
        | false ↦ list_from prefix fs (shown ++ entry ∷ []) s'
      ])
  unfolding is_among
  entry-Shows rest entry is_dir shown s s' d true twice =
      let (same, all) = rest shown s d in (same, λ e. all e ∙ already e (str_eq e entry) refl)
    where
      already :
          (e : CString) (b : Bool)
          → str_eq e entry ≡ b
          → (is_among shown e || any_gives prefix e fs)
            ≡ (is_among shown e || (b || any_gives prefix e fs))
      already e false h = refl
      already e true h =
          let here : is_among shown e ≡ true = ap (is_among shown) (str_eq→eq e entry h) ∙ twice in
          rw here refl
  entry-Shows rest entry is_dir shown s s' d false new =
      let (same, all) = rest (shown ++ entry ∷ []) s' (IsDistinct-append shown entry d new) in
      (
        same,
        λ e.
            all e
            ∙ ap (λ b. b || any_gives prefix e fs) (is_among-append shown (entry ∷ []) e)
            ∙ regroup (is_among shown e) (str_eq e entry) (any_gives prefix e fs),
      )
    where
      regroup : (a b c : Bool) → ((a || (if b then true else false)) || c) ≡ (a || (b || c))
      regroup true b c = refl
      regroup false true c = refl
      regroup false false c = refl

  file-Shows :
      (rest : Rest) (here : Option (CString × Bool)) (f : File) (shown : List CString) (s : Console)
      → IsDistinct shown
      → ShowsMore prefix fs here shown (elim here [
        | none ↦ list_from prefix fs shown s
        | some (entry, is_dir) ↦ elim (is_among shown entry) [
          | true ↦ list_from prefix fs shown s
          | false ↦ list_from prefix fs (shown ++ entry ∷ []) (show_entry s entry is_dir f.size)
        ]
      ])
  file-Shows rest none f shown s d = rest shown s d
  file-Shows rest (some (entry, is_dir)) f shown s d =
      entry-Shows rest entry is_dir shown s (show_entry s entry is_dir f.size) d
        (is_among shown entry) refl

pub list_from-Shows :
    (prefix : CString) (t : Table) (shown : List CString) (s : Console)
    → IsDistinct shown
    → Shows prefix t shown (list_from prefix t shown s)
unfolding list_from any_gives gives
list_from-Shows prefix [] shown s d = (d, λ e. or_false (is_among shown e))
  where
    or_false : (a : Bool) → a ≡ (a || false)
    or_false true = refl
    or_false false = refl
list_from-Shows prefix (f ∷ fs) shown s d =
    file-Shows prefix fs (list_from-Shows prefix fs) (entry_of prefix f) f shown s d

show_entry-IsValid :
    (s : Console) (entry : CString) (is_dir : Bool) (size : ℕ)
    → IsValid s
    → IsValid (show_entry s entry is_dir size)
unfolding show_entry
show_entry-IsValid s entry is_dir size v =
    let accent = set_color s s.colors.accent (s.colors.bg / 16) in
    let arrow = print accent (b' ' ∷ 0x1F ∷ b' ' ∷ []) in
    let white = set_color arrow 0x0F (arrow.colors.bg / 16) in
    let v1 = set_color-IsValid s s.colors.accent (s.colors.bg / 16) v in
    let v2 = (print-IsValid accent (b' ' ∷ 0x1F ∷ b' ' ∷ []) v1).0 in
    let v3 = set_color-IsValid arrow 0x0F (arrow.colors.bg / 16) v2 in
    let v4 = (print-IsValid white entry v3).0 in
    if_intro IsValid is_dir _ _ (λ e. (print-IsValid (print white entry) (codes "/\n") v4).0)
      (λ e.
        print_all-IsValid (print white entry)
          (codes " (" ∷ kernel_itoa (pos size) ∷ codes " bytes)\n" ∷ []) v4)

abbrev Loop : Type 0
Loop = List CString → Console → Console × List CString

listed-IsValid :
    (loop : Loop)
    → ((shown : List CString) (s : Console) → IsValid s → IsValid (loop shown s).0)
    → (here : Option (CString × Bool)) (f : File) (shown : List CString) (s : Console) → IsValid s
    → IsValid
        (elim here as (λ h. Console × List CString) [
          | none ↦ loop shown s
          | some (entry, is_dir) ↦ elim (is_among shown entry) [
            | true ↦ loop shown s
            | false ↦ loop (shown ++ entry ∷ []) (show_entry s entry is_dir f.size)
          ]
        ]).0
listed-IsValid loop keeps none f shown s v = keeps shown s v
listed-IsValid loop keeps (some (entry, is_dir)) f shown s v = dup_or_new (is_among shown entry)
  where
    dup_or_new :
        (dup : Bool)
        → IsValid
            (elim dup as (λ b. Console × List CString) [
              | true ↦ loop shown s
              | false ↦ loop (shown ++ entry ∷ []) (show_entry s entry is_dir f.size)
            ]).0
    dup_or_new true = keeps shown s v
    dup_or_new false =
        keeps (shown ++ entry ∷ []) (show_entry s entry is_dir f.size)
          (show_entry-IsValid s entry is_dir f.size v)

list_from-IsValid :
    (prefix : CString) (t : Table) (shown : List CString) (s : Console)
    → IsValid s
    → IsValid (list_from prefix t shown s).0
unfolding list_from
list_from-IsValid prefix [] shown s v = v
list_from-IsValid prefix (f ∷ fs) shown s v =
    listed-IsValid (λ shown s. list_from prefix fs shown s) (list_from-IsValid prefix fs)
      (entry_of prefix f) f shown s v

pub list_prefix-IsValid :
    (prefix : CString) (t : Table) (s : Console) → IsValid s → IsValid (list_prefix prefix t s).0
unfolding list_prefix
list_prefix-IsValid prefix t s v =
    list_from-IsValid prefix t [] (print s (codes "RAMDisk Index:\n"))
      (print-IsValid s (codes "RAMDisk Index:\n") v).0
