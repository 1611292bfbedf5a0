-- ===== src/Windows/Steps.antt =====
-- window_manager.c: creating, focusing, changing and destroying a window keep the invariant.
use tark_os.Prelude.{ℕ, zero, suc, ◌+◌, ◌<◌, ◌≡◌, ◌≢◌, refl, sym, ◌∙◌, ap, arith, ◌⊎◌, inl, inr}
use tark_os.Prelude.{
  true, false, ◌==◌, Bool-cases, ==→ne, if◌then◌else◌, none, some, List, [], ◌∷◌, length, set,
}
use tark_os.Prelude.{length-set, get_or-set_self, get_or-set_ne}
use tark_os.Prelude.Int.{ℤ, negsuc}
use tark_os.Text.{CString}
use tark_os.Windows.{
  Window, Flags, Slot, Manager, no_slot, slot_at, wm_max_windows, scan, is_window, unfocus, raise,
  wm_focus_window, free_slot_from, place_window, wm_create_window, wm_destroy_window, update,
  is_focus,
}
use tark_os.Windows.Scan.{nth, scan-cases, candidate_used}
use tark_os.Windows.Invariant.{IsValid, set_win-Keeps, unfocus-Keeps, Keeps-IsValid, lift-IsValid}

some_inj : {a b : ℕ} → some a ≡ some b → a ≡ b
some_inj e = cc e

-- Focusing a window that is there keeps it.
refocus-IsValid :
    (m : Manager) (h : ℕ)
    → IsValid m
    → h < wm_max_windows
    → (slot_at m h).used ≡ true
    → IsValid (record m { focused_window = some h })
refocus-IsValid m h v l used = record {
  size = v.size;
  focus = λ f e.
      let same : h ≡ f = some_inj e in
      (omega arith, ap (λ k. (slot_at m k).used) (sym same) ∙ used);
  below_top = v.below_top;
  apart = v.apart;
}

raise-IsValid :
    (m : Manager) (ss : List Slot) (h : ℕ)
    → IsValid (record m { slots = ss })
    → h < wm_max_windows
    → (nth ss h).used ≡ true
    → IsValid (raise m ss h)
unfolding raise
raise-IsValid m ss h v l used =
    let w = (nth ss h).win in
    let s = record (nth ss h) {
      win = record w { flags = record w.flags { focused = true }; z_order = m.top_z_order + 1 };
    } in
    let lifted = lift-IsValid (record m { slots = ss }) h s v l used refl in
    refocus-IsValid (record m { slots = set ss h s; top_z_order = m.top_z_order + 1 }) h lifted l
      (ap (λ (t : Slot). t.used) (get_or-set_self ss h s no_slot (omega (arith, v.size))) ∙ used)

pub is_window_parts :
    (m : Manager) (h : ℕ)
    → is_window m h ≡ true
    → (h < wm_max_windows) × ((slot_at m h).used ≡ true)
is_window_parts m h e = (ground arith, ground arith)

-- `wm_focus_window` keeps the invariant.
pub focus-IsValid : (m : Manager) (h : ℕ) → IsValid m → IsValid (wm_focus_window m h)
unfolding wm_focus_window
focus-IsValid m h v = elim (Bool-cases (is_window m h)) [
  | inr no_such ↦ rw no_such v
  | inl there ↦
      let (l, used) = is_window_parts m h there in
      let kept = unfocus-Keeps m.slots m.focused_window in
      rw there (
        raise-IsValid m (unfocus m.slots m.focused_window) h
          (Keeps-IsValid m (unfocus m.slots m.focused_window) v kept) l ((kept.1 h).0 ∙ used))
]

free_slot_from-cases :
    (ss : List Slot) (i : ℕ)
    → ((free_slot_from ss i ≡ none) × ((j : ℕ) → j < length ss → (nth ss j).used ≡ true))
      ⊎ ((k : ℕ) × (free_slot_from ss i ≡ some (i + k))
          × (k < length ss)
          × ((nth ss k).used ≡ false))
unfolding free_slot_from
free_slot_from-cases [] i = inl (refl, λ j l. absurd (omega arith))
free_slot_from-cases (s ∷ ss) i = elim (Bool-cases s.used) [
  | inr e ↦ inr (0, rw e (ap some (omega arith)), omega arith, e)
  | inl e ↦ elim (free_slot_from-cases ss (i + 1)) [
    | inl (missing, full) ↦ inl (rw (e, missing), all_used e full)
    | inr (k, found, inside, unused) ↦
        inr (suc k, rw (e, found) (ap some (omega arith)), omega arith, unused)
  ]
]
  where
    all_used :
        s.used ≡ true
        → ((j : ℕ) → j < length ss → (nth ss j).used ≡ true)
        → (j : ℕ) → j < suc (length ss)
        → (nth (s ∷ ss) j).used ≡ true
    all_used e full zero l = e
    all_used e full (suc j) l = full j (omega arith)

-- `wm_create_window` keeps the invariant.
pub create-IsValid :
    (m : Manager) (x y : ℤ) (width height : ℕ) (title : CString) (flags : Flags)
    → IsValid m
    → IsValid (wm_create_window m x y width height title flags).0
unfolding wm_create_window place_window
create-IsValid m x y width height title flags v = elim (free_slot_from-cases m.slots 0) [
  | inl (missing, full) ↦ rw (missing, wm_create_window) v
  | inr (k, found, inside, unused) ↦
      let place : 0 + k ≡ k = omega arith in
      rw (found, wm_create_window, place)
        (focus-IsValid _ k (lift-IsValid m k _ v (omega (arith, inside, v.size)) refl refl))
]

-- The slots without the window `h`.
abbrev removed : Manager → ℕ → List Slot
removed m h = set m.slots h (record (slot_at m h) { used = false })

left :
    (m : Manager) (h j : ℕ)
    → ((nth (removed m h) j).used ≡ true → (nth m.slots j).used ≡ true)
      × ((nth (removed m h) j).win.z_order ≡ (nth m.slots j).win.z_order)
left m h j = go m.slots h j
  where
    go :
        (ss : List Slot) (h j : ℕ)
        → ((nth (set ss h (record (nth ss h) { used = false })) j).used ≡ true
            → (nth ss j).used ≡ true)
          × ((nth (set ss h (record (nth ss h) { used = false })) j).win.z_order
              ≡ (nth ss j).win.z_order)
    go [] h j = (λ u. u, refl)
    go (s ∷ ss) zero zero = (λ u. cc u, refl)
    go (s ∷ ss) zero (suc j) = (λ u. u, refl)
    go (s ∷ ss) (suc h) zero = (λ u. u, refl)
    go (s ∷ ss) (suc h) (suc j) = go ss h j

-- The focus after the window `h` is gone is a window that is left.
focus_left :
    (m : Manager) (h : ℕ)
    → IsValid m
    → (f : ℕ)
    → (if is_focus m.focused_window h
        then scan (λ w. true) (removed m h) 0 (negsuc 0) none
        else m.focused_window)
      ≡ some f
    → (f < wm_max_windows) × ((nth (removed m h) f).used ≡ true)
focus_left m h v f = elim (Bool-cases (is_focus m.focused_window h)) [
  | inr n ↦ rw n λ e. (
    (v.focus f e).0,
    ap (λ (s : Slot). s.used) (get_or-set_ne m.slots h f _ no_slot (other (rw e at n)))
        ∙ (v.focus f e).1,
  )
  | inl y ↦ rw y (elim (scan-cases (λ w. true) (removed m h)) [
    | inl (e, nobody) ↦ rw e λ impossible. cc impossible
    | inr (k, e, top) ↦ rw e λ same.
        let here : k ≡ f = some_inj same in
        let used : (nth (removed m h) k).used ≡ true =
          candidate_used (λ w. true) (nth (removed m h) k) top.candidate in
        (
          omega (
            arith,
            top.inside,
            length-set m.slots h (record (slot_at m h) { used = false }),
            v.size,
            here,
          ),
          ap (λ j. (nth (removed m h) j).used) (sym here) ∙ used,
        )
  ])
]
  where
    other : (f == h) ≡ false → h ≢ f
    other e same = ==→ne f h e (sym same)

-- `wm_destroy_window` keeps the invariant.
pub destroy-IsValid : (m : Manager) (h : ℕ) → IsValid m → IsValid (wm_destroy_window m h)
unfolding wm_destroy_window
destroy-IsValid m h v = elim (Bool-cases (is_window m h)) [
  | inr no_such ↦ rw no_such v
  | inl there ↦ rw there record {
    size = length-set m.slots h _ ∙ v.size;
    focus = focus_left m h v;
    below_top = λ j. omega (arith, (left m h j).1, v.below_top j);
    apart = λ i j a b e.
        v.apart i j ((left m h i).0 a) ((left m h j).0 b) (sym (left m h i).1 ∙ e ∙ (left m h j).1);
  }
]

-- Writing to a window's other fields keeps the invariant.
pub update-IsValid :
    (m : Manager) (h : ℕ) (f : Window → Window)
    → IsValid m
    → ((w : Window) → (f w).z_order ≡ w.z_order)
    → IsValid (update m h f)
unfolding update
update-IsValid m h f v same = elim (Bool-cases (is_window m h)) [
  | inr no_such ↦ rw no_such v
  | inl there ↦
      rw there (
        Keeps-IsValid m _ v
          (set_win-Keeps m.slots h (f (slot_at m h).win) (same (slot_at m h).win)))
]
