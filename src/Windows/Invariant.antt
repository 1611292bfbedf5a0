-- ===== src/Windows/Invariant.antt =====
-- window_manager.c: the invariant of the windows, and the steps that keep it.
use tark_os.Prelude.{ℕ, zero, suc, ◌+◌, ◌≤◌, ◌<◌, ◌≡◌, refl, sym, ◌∙◌, ap, arith, ◌⊎◌, inl, inr}
use tark_os.Prelude.{
  true, false, ◌==◌, ltb, Bool-cases, ==→eq, ==→ne, if◌then◌else◌, Option, none, some, List, [],
  ◌∷◌, length, set,
}
use tark_os.Prelude.{length-set, get_or-set_self, get_or-set_ne}
use tark_os.Windows.{Window, Slot, Manager, no_slot, slot_at, set_win, wm_max_windows, unfocus}
use tark_os.Windows.Scan.{nth}

-- The focused window is one; no z-order is above the top one; no two windows have one z-order.
pub record IsValid (m : Manager) : Type 0 where
  pub size : length m.slots ≡ wm_max_windows
  pub focus :
      (f : ℕ) → m.focused_window ≡ some f → (f < wm_max_windows) × ((slot_at m f).used ≡ true)
  pub below_top : (j : ℕ) → (slot_at m j).win.z_order ≤ m.top_z_order
  pub apart :
      (i j : ℕ)
      → (slot_at m i).used ≡ true
      → (slot_at m j).used ≡ true
      → (slot_at m i).win.z_order ≡ (slot_at m j).win.z_order
      → i ≡ j

-- Slots that are used as before, in the same z-order.
abbrev pub Keeps : List Slot → List Slot → Type 0
Keeps ss ss' =
    (length ss' ≡ length ss)
    × ((j : ℕ)
        → ((nth ss' j).used ≡ (nth ss j).used) × ((nth ss' j).win.z_order ≡ (nth ss j).win.z_order))

pub nth-set :
    (ss : List Slot) (h j : ℕ) (s : Slot)
    → h < length ss
    → nth (set ss h s) j ≡ (if h == j then s else nth ss j)
nth-set ss h j s l = elim (Bool-cases (h == j)) [
  | inl e ↦ let here : h ≡ j = ==→eq h j e in rw (e, ← here) (get_or-set_self ss h s no_slot l)
  | inr e ↦ rw e (get_or-set_ne ss h j s no_slot (==→ne h j e))
]

pub set_win-Keeps :
    (ss : List Slot) (h : ℕ) (w : Window)
    → w.z_order ≡ (nth ss h).win.z_order
    → Keeps ss (set_win ss h w)
set_win-Keeps [] h w e = (refl, λ j. (refl, refl))
set_win-Keeps (s ∷ ss) zero w e = (refl, both)
  where
    both :
        (j : ℕ)
        → ((nth (set_win (s ∷ ss) 0 w) j).used ≡ (nth (s ∷ ss) j).used)
          × ((nth (set_win (s ∷ ss) 0 w) j).win.z_order ≡ (nth (s ∷ ss) j).win.z_order)
    both zero = (refl, e)
    both (suc j) = (refl, refl)
set_win-Keeps (s ∷ ss) (suc h) w e =
    (ap suc (set_win-Keeps ss h w e).0, both (set_win-Keeps ss h w e).1)
  where
    both :
        ((j : ℕ)
          → ((nth (set_win ss h w) j).used ≡ (nth ss j).used)
            × ((nth (set_win ss h w) j).win.z_order ≡ (nth ss j).win.z_order))
        → (j : ℕ)
        → ((nth (set_win (s ∷ ss) (suc h) w) j).used ≡ (nth (s ∷ ss) j).used)
          × ((nth (set_win (s ∷ ss) (suc h) w) j).win.z_order ≡ (nth (s ∷ ss) j).win.z_order)
    both rest zero = (refl, refl)
    both rest (suc j) = rest j

pub unfocus-Keeps : (ss : List Slot) (f : Option ℕ) → Keeps ss (unfocus ss f)
unfocus-Keeps ss none = (refl, λ j. (refl, refl))
unfocus-Keeps ss (some f) = elim (Bool-cases (ltb f wm_max_windows)) [
  | inl e ↦ rw e (set_win-Keeps ss f _ refl)
  | inr e ↦ rw e (refl, λ j. (refl, refl))
]

-- Slots that are used as before in the same z-order keep the invariant.
pub Keeps-IsValid :
    (m : Manager) (ss : List Slot)
    → IsValid m
    → Keeps m.slots ss
    → IsValid (record m { slots = ss })
Keeps-IsValid m ss v (size, same) = record {
  size = size ∙ v.size;
  focus = λ f e. ((v.focus f e).0, (same f).0 ∙ (v.focus f e).1);
  below_top = λ j. omega (arith, (same j).1, v.below_top j);
  apart = λ i j a b e.
      v.apart i j (sym (same i).0 ∙ a) (sym (same j).0 ∙ b)
        (omega (arith, (same i).1, (same j).1, e));
}

-- Putting a window above all others keeps it.
pub lift-IsValid :
    (m : Manager) (h : ℕ) (s : Slot)
    → IsValid m
    → h < wm_max_windows
    → s.used ≡ true
    → s.win.z_order ≡ m.top_z_order + 1
    → IsValid (record m { slots = set m.slots h s; top_z_order = m.top_z_order + 1 })
lift-IsValid m h s v l used top = record {
  size = length-set m.slots h s ∙ v.size;
  focus = λ f e. ((v.focus f e).0, rw (at f) (still f e (Bool-cases (h == f))));
  below_top = λ j. rw (at j) (below j (Bool-cases (h == j)));
  apart = λ i j. rw (at i, at j) (different i j (Bool-cases (h == i)) (Bool-cases (h == j)));
}
  where
    at : (j : ℕ) → nth (set m.slots h s) j ≡ (if h == j then s else nth m.slots j)
    at j = nth-set m.slots h j s (omega (arith, v.size))

    still :
        (f : ℕ)
        → m.focused_window ≡ some f
        → ((h == f) ≡ true) ⊎ ((h == f) ≡ false)
        → (if h == f then s else nth m.slots f).used ≡ true
    still f e (inl y) = rw y used
    still f e (inr n) = rw n (v.focus f e).1

    below :
        (j : ℕ)
        → ((h == j) ≡ true) ⊎ ((h == j) ≡ false)
        → (if h == j then s else nth m.slots j).win.z_order ≤ m.top_z_order + 1
    below j (inl y) = rw y (omega (arith, top))
    below j (inr n) = rw n (omega (arith, v.below_top j))

    different :
        (i j : ℕ)
        → ((h == i) ≡ true) ⊎ ((h == i) ≡ false)
        → ((h == j) ≡ true) ⊎ ((h == j) ≡ false)
        → (if h == i then s else nth m.slots i).used ≡ true
        → (if h == j then s else nth m.slots j).used ≡ true
        → (if h == i then s else nth m.slots i).win.z_order
          ≡ (if h == j then s else nth m.slots j).win.z_order
        → i ≡ j
    different i j (inl y) (inl y') = λ a b e. sym (==→eq h i y) ∙ ==→eq h j y'
    different i j (inl y) (inr n) = rw (y, n) λ a b e. absurd (omega (arith, top, e, v.below_top j))
    different i j (inr n) (inl y) = rw (y, n) λ a b e. absurd (omega (arith, top, e, v.below_top i))
    different i j (inr n) (inr n') = rw (n, n') (v.apart i j)
