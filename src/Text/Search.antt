-- ===== src/Text/Search.antt =====
-- kernel.c: `strcmp(a, b) == 0`, `starts_with` and `str_contains` decide equality, prefix and
-- substring.
use tark_os.Prelude.{ℕ, ◌≡◌, ◌↔◌, inl, inr, refl, sym, ◌∙◌, ap, ap₂, arith, true}
use tark_os.Prelude.{◌==◌, ==→eq, ==_refl, Bool-cases, [], ◌∷◌, ◌++◌}
use tark_os.Text.{CString, str_eq, starts_with, matches_here, contains_from, str_contains}

pub str_eq_refl : (a : CString) → str_eq a a ≡ true
unfolding str_eq
str_eq_refl [] = refl
str_eq_refl (a ∷ as') = rw (==_refl a) (str_eq_refl as')

pub str_eq→eq : (a b : CString) → str_eq a b ≡ true → a ≡ b
unfolding str_eq
str_eq→eq [] [] h = refl
str_eq→eq [] (b ∷ bs) h = cc
str_eq→eq (a ∷ as') [] h = cc
str_eq→eq (a ∷ as') (b ∷ bs) h = elim (Bool-cases (a == b)) [
  | inl e ↦ ap₂ ◌∷◌ (==→eq a b e) (str_eq→eq as' bs (rw e at h))
  | inr e ↦ cc (rw e at h)
]

-- `strcmp` is 0 exactly for equal strings.
pub str_eq_iff : (a b : CString) → (str_eq a b ≡ true) ↔ (a ≡ b)
str_eq_iff a b = (str_eq→eq a b, λ e. ap (str_eq a) (sym e) ∙ str_eq_refl a)

abbrev pub IsPrefixOf : CString → CString → Type 0
IsPrefixOf p s = (rest : CString) × (s ≡ p ++ rest)

abbrev pub IsPartOf : CString → CString → Type 0
IsPartOf n s = (before : CString) × (after : CString) × (s ≡ before ++ (n ++ after))

starts_with→prefix : (s p : CString) → starts_with s p ≡ true → IsPrefixOf p s
unfolding starts_with
starts_with→prefix s [] h = (s, refl)
starts_with→prefix [] (p ∷ ps) h = cc
starts_with→prefix (c ∷ cs) (p ∷ ps) h = elim (Bool-cases (c == p)) [
  | inl e ↦
      let (rest, eq) = starts_with→prefix cs ps (rw e at h) in (rest, ap₂ ◌∷◌ (==→eq c p e) eq)
  | inr e ↦ cc (rw e at h)
]

pub starts_with-append : (p rest : CString) → starts_with (p ++ rest) p ≡ true
unfolding starts_with
starts_with-append [] rest = refl
starts_with-append (c ∷ cs) rest = rw (==_refl c) (starts_with-append cs rest)

-- `starts_with` holds exactly if the string is the prefix and something behind it.
pub starts_with_iff : (s p : CString) → (starts_with s p ≡ true) ↔ IsPrefixOf p s
starts_with_iff s p =
    (starts_with→prefix s p, λ (rest, e). ap (λ t. starts_with t p) e ∙ starts_with-append p rest)

-- The inner loop of `str_contains` is `starts_with`.
matches_here-eq-starts_with : (s n : CString) → matches_here s n ≡ starts_with s n
unfolding matches_here starts_with
matches_here-eq-starts_with s [] = refl
matches_here-eq-starts_with [] (n ∷ ns) = refl
matches_here-eq-starts_with (c ∷ cs) (n ∷ ns) = rw (matches_here-eq-starts_with cs ns)

contains_from→part : (s n : CString) → contains_from s n ≡ true → IsPartOf n s
unfolding contains_from
contains_from→part [] n h = cc
contains_from→part (c ∷ cs) n h = elim (Bool-cases (matches_here (c ∷ cs) n)) [
  | inl e ↦
      let (rest, eq) = starts_with→prefix (c ∷ cs) n (sym (matches_here-eq-starts_with _ n) ∙ e) in
      ([], rest, eq)
  | inr e ↦
      let (before, after, eq) = contains_from→part cs n (rw e at h) in
      (c ∷ before, after, ap (◌∷◌ c) eq)
]

contains_from-append :
    (before after : CString) (n : ℕ) (ns : CString)
    → contains_from (before ++ ((n ∷ ns) ++ after)) (n ∷ ns) ≡ true
unfolding contains_from
contains_from-append [] after n ns =
    rw (matches_here-eq-starts_with (n ∷ (ns ++ after)) (n ∷ ns), starts_with-append (n ∷ ns) after)
contains_from-append (c ∷ before) after n ns =
    rw (contains_from-append before after n ns) (ground arith)

-- `str_contains` holds exactly if the needle stands somewhere in the string.
pub str_contains_iff : (s n : CString) → (str_contains s n ≡ true) ↔ IsPartOf n s
unfolding str_contains
str_contains_iff s [] = (λ h. ([], s, refl), λ h. refl)
str_contains_iff s (n ∷ ns) = (
  contains_from→part s (n ∷ ns),
  λ (before, after, e).
      ap (λ t. contains_from t (n ∷ ns)) e ∙ contains_from-append before after n ns,
)
