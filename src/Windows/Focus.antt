-- ===== src/Windows/Focus.antt =====
-- window_manager.c: a focused window is on top.
use tark_os.Prelude.{ℕ, zero, suc, ◌+◌, ◌<◌, ◌≡◌, refl, sym, ◌∙◌, ap, arith, inl, inr}
use tark_os.Prelude.{
  Bool, true, ltb, Bool-cases, Option, none, some, List, [], ◌∷◌, length, get_or-set_self,
}
use tark_os.Prelude.Int.{ℤ}
use tark_os.Windows.{
  Window, Slot, Manager, no_slot, slot_at, set_win, wm_max_windows, is_candidate, is_window,
  unfocus, raise, wm_focus_window, wm_window_at, point_in_window,
}
use tark_os.Windows.Scan.{nth, candidate_used, window_at-cases}
use tark_os.Windows.Invariant.{IsValid, unfocus-Keeps}
use tark_os.Windows.Steps.{is_window_parts, focus-IsValid}

set_win_candidate :
    (p : Window → Bool) (ss : List Slot) (h : ℕ) (w : Window)
    → is_candidate p (record (nth ss h) { win = w }) ≡ is_candidate p (nth ss h)
    → (j : ℕ) → is_candidate p (nth (set_win ss h w) j) ≡ is_candidate p (nth ss j)
set_win_candidate p [] h w e j = refl
set_win_candidate p (s ∷ ss) zero w e zero = e
set_win_candidate p (s ∷ ss) zero w e (suc j) = refl
set_win_candidate p (s ∷ ss) (suc h) w e zero = refl
set_win_candidate p (s ∷ ss) (suc h) w e (suc j) = set_win_candidate p ss h w e j

-- Taking the focus off a window leaves it where it is.
unfocus_candidate :
    (x y : ℤ) (ss : List Slot) (f : Option ℕ) (j : ℕ)
    → is_candidate (point_in_window x y) (nth (unfocus ss f) j)
      ≡ is_candidate (point_in_window x y) (nth ss j)
unfolding point_in_window
unfocus_candidate x y ss none j = refl
unfocus_candidate x y ss (some f) j = elim (Bool-cases (ltb f wm_max_windows)) [
  | inl e ↦ rw e (set_win_candidate (point_in_window x y) ss f _ refl j)
  | inr e ↦ rw e refl
]

-- The window after it is raised: at the top, where it was.
raised :
    (x y : ℤ) (m : Manager) (ss : List Slot) (h : ℕ)
    → h < length ss
    → ((slot_at (raise m ss h) h).win.z_order ≡ (raise m ss h).top_z_order)
      × (is_candidate (point_in_window x y) (slot_at (raise m ss h) h)
          ≡ is_candidate (point_in_window x y) (nth ss h))
unfolding raise point_in_window
raised x y m ss h l =
    let w = (nth ss h).win in
    let s = record (nth ss h) {
      win = record w { flags = record w.flags { focused = true }; z_order = m.top_z_order + 1 };
    } in
    rw (get_or-set_self ss h s no_slot l) (refl, refl)

focused :
    (m : Manager) (h : ℕ) (x y : ℤ)
    → IsValid m
    → is_window m h ≡ true
    → is_candidate (point_in_window x y) (slot_at m h) ≡ true
    → ((slot_at (wm_focus_window m h) h).win.z_order ≡ (wm_focus_window m h).top_z_order)
      × (is_candidate (point_in_window x y) (slot_at (wm_focus_window m h) h) ≡ true)
unfolding wm_focus_window
focused m h x y v there here =
    let ss = unfocus m.slots m.focused_window in
    let inside : h < length ss =
      omega (
        arith,
        (unfocus-Keeps m.slots m.focused_window).0,
        v.size,
        (is_window_parts m h there).0,
      ) in
    let (high, same) = raised x y m ss h inside in
    rw there (high, same ∙ unfocus_candidate x y m.slots m.focused_window h ∙ here)

-- With the invariant, after focusing a window that is visible and has a point in its frame,
-- `wm_window_at` finds that window at the point.
pub window_at-focus :
    (m : Manager) (h : ℕ) (x y : ℤ)
    → IsValid m
    → is_window m h ≡ true
    → is_candidate (point_in_window x y) (slot_at m h) ≡ true
    → wm_window_at (wm_focus_window m h) x y ≡ some h
window_at-focus m h x y v there here =
    let (high, candidate) = focused m h x y v there here in
    elim (window_at-cases (wm_focus_window m h) x y) [
      | inl (e, nobody) ↦ absurd (cc (sym (nobody h) ∙ candidate))
      | inr (k, e, top) ↦
          let v' = focus-IsValid m h v in
          let same : k ≡ h =
            v'.apart k h
              (candidate_used (point_in_window x y) (nth (wm_focus_window m h).slots k)
                top.candidate)
              (candidate_used (point_in_window x y) (nth (wm_focus_window m h).slots h) candidate)
              (omega (arith, top.highest h candidate, v'.below_top k, high)) in
          e ∙ ap some same
    ]
