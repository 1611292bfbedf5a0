-- ===== src/Windows/Scan.antt =====
-- window_manager.c: the search for the topmost window.
use tark_os.Prelude.{ℕ, zero, suc, ◌+◌, ◌≤◌, ◌<◌, ◌≡◌, refl, sym, ◌∙◌, ap, arith, ◌⊎◌, inl, inr}
use tark_os.Prelude.{
  Bool, true, false, Bool-cases, Option, none, some, List, [], ◌∷◌, length, get_or,
}
use tark_os.Prelude.Int.{ℤ, pos, negsuc, ◌≤ℤ◌, ◌<ℤ◌, ltb_ℤ}
use tark_os.Windows.{
  Window, Slot, Manager, no_slot, slot_at, is_candidate, scan, wm_window_at, point_in_window,
}

abbrev pub nth : List Slot → ℕ → Slot
nth ss j = get_or ss j no_slot

pub candidate_used : (p : Window → Bool) (s : Slot) → is_candidate p s ≡ true → s.used ≡ true
candidate_used p s c = ground arith

-- Slot `k` is the first of the candidates with the greatest z-order.
pub record IsTop (p : Window → Bool) (ss : List Slot) (k : ℕ) : Type 0 where
  pub inside : k < length ss
  pub candidate : is_candidate p (nth ss k) ≡ true
  pub highest :
      (j : ℕ) → is_candidate p (nth ss j) ≡ true → (nth ss j).win.z_order ≤ (nth ss k).win.z_order
  pub first :
      (j : ℕ)
      → j < k
      → is_candidate p (nth ss j) ≡ true
      → (nth ss j).win.z_order < (nth ss k).win.z_order

-- What the search from slot `i` on finds behind `found`, at height `high`.
abbrev pub Finds : (Window → Bool) → List Slot → ℕ → ℤ → Option ℕ → Option ℕ → Type 0
Finds p ss i high found r =
    ((r ≡ found)
      × ((j : ℕ) → is_candidate p (nth ss j) ≡ true → pos (nth ss j).win.z_order ≤ℤ high))
    ⊎ ((k : ℕ) × (r ≡ some (i + k)) × (high <ℤ pos (nth ss k).win.z_order) × IsTop p ss k)

some_of {ℓ} : {A : Type ℓ} {a b : A} → a ≡ b → some a ≡ some b
some_of e = ap some e

above_of : (high : ℤ) (z : ℕ) → ltb_ℤ high (pos z) ≡ true → high <ℤ pos z
above_of high z e = ground arith

below_of : (high : ℤ) (z : ℕ) → ltb_ℤ high (pos z) ≡ false → pos z ≤ℤ high
below_of high z e = ground arith

-- The search goes on behind a window above all before it.
Finds-hit :
    (p : Window → Bool) (s : Slot) (ss : List Slot) (i : ℕ) (high : ℤ) (found r : Option ℕ)
    → is_candidate p s ≡ true
    → high <ℤ pos s.win.z_order
    → Finds p ss (i + 1) (pos s.win.z_order) (some i) r
    → Finds p (s ∷ ss) i high found r
Finds-hit p s ss i high found r c above (inl (e, all)) = inr (
  0,
  e ∙ some_of (omega arith),
  above,
  record {
    inside = omega arith;
    candidate = c;
    highest = highest;
    first = λ j l. absurd (omega arith);
  },
)
  where
    highest :
        (j : ℕ)
        → is_candidate p (nth (s ∷ ss) j) ≡ true
        → (nth (s ∷ ss) j).win.z_order ≤ s.win.z_order
    highest zero c' = omega arith
    highest (suc j) c' = omega (arith, all j c')
Finds-hit p s ss i high found r c above (inr (k, e, later, top)) = inr (
  suc k,
  e ∙ some_of (omega arith),
  omega (arith, above, later),
  record {
    inside = omega (arith, top.inside);
    candidate = top.candidate;
    highest = highest;
    first = first;
  },
)
  where
    highest :
        (j : ℕ)
        → is_candidate p (nth (s ∷ ss) j) ≡ true
        → (nth (s ∷ ss) j).win.z_order ≤ (nth ss k).win.z_order
    highest zero c' = omega (arith, later)
    highest (suc j) c' = top.highest j c'

    first :
        (j : ℕ)
        → j < suc k
        → is_candidate p (nth (s ∷ ss) j) ≡ true
        → (nth (s ∷ ss) j).win.z_order < (nth ss k).win.z_order
    first zero l c' = omega (arith, later)
    first (suc j) l c' = top.first j (omega arith) c'

-- The search passes a slot that is no candidate or not above those before it.
Finds-miss :
    (p : Window → Bool) (s : Slot) (ss : List Slot) (i : ℕ) (high : ℤ) (found r : Option ℕ)
    → (is_candidate p s ≡ true → pos s.win.z_order ≤ℤ high)
    → Finds p ss (i + 1) high found r
    → Finds p (s ∷ ss) i high found r
Finds-miss p s ss i high found r low (inl (e, all)) = inl (e, every)
  where
    every :
        (j : ℕ) → is_candidate p (nth (s ∷ ss) j) ≡ true → pos (nth (s ∷ ss) j).win.z_order ≤ℤ high
    every zero c = low c
    every (suc j) c = all j c
Finds-miss p s ss i high found r low (inr (k, e, above, top)) = inr (
  suc k,
  e ∙ some_of (omega arith),
  above,
  record {
    inside = omega (arith, top.inside);
    candidate = top.candidate;
    highest = highest;
    first = first;
  },
)
  where
    highest :
        (j : ℕ)
        → is_candidate p (nth (s ∷ ss) j) ≡ true
        → (nth (s ∷ ss) j).win.z_order ≤ (nth ss k).win.z_order
    highest zero c = omega (arith, low c, above)
    highest (suc j) c = top.highest j c

    first :
        (j : ℕ)
        → j < suc k
        → is_candidate p (nth (s ∷ ss) j) ≡ true
        → (nth (s ∷ ss) j).win.z_order < (nth ss k).win.z_order
    first zero l c = omega (arith, low c, above)
    first (suc j) l c = top.first j (omega arith) c

scan-Finds :
    (p : Window → Bool) (ss : List Slot) (i : ℕ) (high : ℤ) (found : Option ℕ)
    → Finds p ss i high found (scan p ss i high found)
unfolding scan
scan-Finds p [] i high found = inl (refl, λ j c. cc c)
scan-Finds p (s ∷ ss) i high found = elim (Bool-cases (is_candidate p s)) [
  | inr other ↦ rw other (
      Finds-miss p s ss i high found _ (λ c. absurd (cc (sym other ∙ c)))
        (scan-Finds p ss (i + 1) high found))
  | inl c ↦ elim (Bool-cases (ltb_ℤ high (pos s.win.z_order))) [
    | inl above ↦
        rw (c, above)
          (Finds-hit p s ss i high found _ c (above_of high s.win.z_order above)
            (scan-Finds p ss (i + 1) (pos s.win.z_order) (some i)))
    | inr below ↦
        rw (c, below)
          (Finds-miss p s ss i high found _ (λ c'. below_of high s.win.z_order below)
            (scan-Finds p ss (i + 1) high found))
  ]
]

-- What the search over all slots finds: nothing without candidates, and else the topmost one.
pub scan-cases :
    (p : Window → Bool) (ss : List Slot)
    → ((scan p ss 0 (negsuc 0) none ≡ none) × ((j : ℕ) → is_candidate p (nth ss j) ≡ false))
      ⊎ ((k : ℕ) × (scan p ss 0 (negsuc 0) none ≡ some k) × IsTop p ss k)
scan-cases p ss = elim (scan-Finds p ss 0 (negsuc 0) none) [
  | inl (e, all) ↦ inl (e, λ j. no_candidate j (all j) (Bool-cases (is_candidate p (nth ss j))))
  | inr (k, e, above, top) ↦ inr (k, e ∙ some_of (omega arith), top)
]
  where
    no_candidate :
        (j : ℕ)
        → (is_candidate p (nth ss j) ≡ true → pos (nth ss j).win.z_order ≤ℤ negsuc 0)
        → (is_candidate p (nth ss j) ≡ true) ⊎ (is_candidate p (nth ss j) ≡ false)
        → is_candidate p (nth ss j) ≡ false
    no_candidate j low (inl c) = absurd (omega (arith, low c))
    no_candidate j low (inr c) = c

-- `wm_window_at` returns -1 exactly if no used, visible window has the point in its frame, and
-- else the window with the greatest z-order among those that have, the first of them if several
-- have that z-order.
pub window_at-cases :
    (m : Manager) (x y : ℤ)
    → ((wm_window_at m x y ≡ none)
        × ((j : ℕ) → is_candidate (point_in_window x y) (slot_at m j) ≡ false))
      ⊎ ((k : ℕ) × (wm_window_at m x y ≡ some k) × IsTop (point_in_window x y) m.slots k)
unfolding wm_window_at
window_at-cases m x y = scan-cases (point_in_window x y) m.slots
