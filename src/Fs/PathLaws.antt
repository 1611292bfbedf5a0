-- ===== src/Fs/PathLaws.antt =====
-- kernel.c: what `build_path` and `path_parent` return.
use tark_os.Prelude.{
  ℕ, zero, suc, ◌+◌, ◌-◌, ◌≤◌, ◌<◌, ◌≡◌, ◌≢◌, refl, sym, ◌∙◌, ap, arith, inl, inr,
}
use tark_os.Prelude.{true, false, ◌==◌, leb, if◌then◌else◌, Bool-cases, ==→eq}
use tark_os.Prelude.{some, [], ◌∷◌, ◌++◌, length, get_or, take, length-append}
use tark_os.Text.{CString, slash}
use tark_os.Fs.{fs_name_valid}
use tark_os.Fs.Dirs.{build_path, base_of, last_slash, path_parent}

-- Every path that `build_path` returns is a valid file name, of 1 to 31 bytes.
pub build_path-valid :
    (current name : CString) {out : CString}
    → build_path current name ≡ some out
    → fs_name_valid out ≡ true
unfolding build_path fs_name_valid
build_path-valid current [] e = cc
build_path-valid current (c ∷ name) e =
    ground (arith, length-append (base_of current) (slash ∷ c ∷ name))

-- The slashes of `path` from `i` down: with none between, the search stops at `k`.
last_slash_at :
    (path : CString) (i k : ℕ)
    → k ≤ i
    → get_or path k 0 ≡ slash
    → ((j : ℕ) → k < j → j ≤ i → get_or path j 0 ≢ slash)
    → last_slash path i ≡ k
unfolding last_slash
last_slash_at path zero k l at clear = omega arith
last_slash_at path (suc i) k l at clear = elim (Bool-cases (k == suc i)) [
  | inl e ↦
      let here : k ≡ suc i = ==→eq k (suc i) e in
      let found : (get_or path (suc i) 0 == slash) ≡ true =
        ground (arith, ap (λ t. get_or path t 0) here) in
      rw found (sym here)
  | inr e ↦
      let passed : (get_or path (suc i) 0 == slash) ≡ false =
        ground (arith, clear (suc i) (ground arith) (omega arith)) in
      rw passed (last_slash_at path i k (ground arith) at (λ j a b. clear j a (omega arith)))
]

get_or-append_at : (p q : CString) (c : ℕ) → get_or (p ++ (c ∷ q)) (length p) 0 ≡ c
get_or-append_at [] q c = refl
get_or-append_at (x ∷ p) q c = get_or-append_at p q c

get_or-append_later :
    (p q : CString) (c j : ℕ) → get_or (p ++ (c ∷ q)) (suc (length p + j)) 0 ≡ get_or q j 0
get_or-append_later [] q c j = ap (λ t. get_or q t 0) (omega arith)
get_or-append_later (x ∷ p) q c j =
    ap (λ t. get_or (p ++ (c ∷ q)) t 0) (omega arith) ∙ get_or-append_later p q c j

take-append_at : (p q : CString) → take (length p) (p ++ q) ≡ p
take-append_at [] q = refl
take-append_at (x ∷ p) q = ap (◌∷◌ x) (take-append_at p q)

-- A path component: it holds no slash.
abbrev pub HasNoSlash : CString → Type 0
HasNoSlash s = (j : ℕ) → get_or s j 0 ≢ slash

-- The search in a path with a last component `s` stops before it.
last_slash-append :
    (p s : CString)
    → HasNoSlash s
    → last_slash (p ++ (slash ∷ s)) (length (p ++ (slash ∷ s)) - 1) ≡ length p
last_slash-append p s plain =
    last_slash_at (p ++ (slash ∷ s)) _ (length p) (omega (arith, length-append p (slash ∷ s)))
      (get_or-append_at p s slash)
      λ j a b at.
        let split : suc (length p + (j - length p - 1)) ≡ j = omega arith in
        plain (j - length p - 1) (
          sym (get_or-append_later p s slash (j - length p - 1))
          ∙ ap (λ t. get_or (p ++ (slash ∷ s)) t 0) split
          ∙ at)

-- The parent of a directory with a path and a last component is that path, and the parent of one
-- directly below the root is the root.
pub path_parent_lem :
    (p s : CString)
    → HasNoSlash s
    → s ≢ []
    → path_parent (p ++ (slash ∷ s)) ≡ (if length p == 0 then slash ∷ [] else p)
unfolding path_parent
path_parent_lem p [] plain ne = absurd (ne refl)
path_parent_lem p (c ∷ s) plain ne =
    let long : leb (length (p ++ (slash ∷ c ∷ s))) 1 ≡ false =
      ground (arith, length-append p (slash ∷ c ∷ s)) in
    rw (long, last_slash-append p (c ∷ s) plain, take-append_at p (slash ∷ c ∷ s)) refl
