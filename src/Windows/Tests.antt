-- ===== src/Windows/Tests.antt =====
-- Runs of the window manager.
use tark_os.Prelude.{◌≡◌, refl, true, false, none, some, [], ◌∷◌, codes}
use tark_os.Prelude.Int.{pos, ◌+ℤ◌}
use tark_os.Windows.{
  drawing_order, Flags, Manager, slot_at, is_candidate, is_window, wm_init, wm_create_window,
  wm_focus_window, wm_destroy_window, wm_window_at, point_in_window,
}
use tark_os.Windows.Invariant.{IsValid}
use tark_os.Windows.Focus.{window_at-focus}
use tark_os.Windows.Calls.{Step, Reach, start, next, from_wm_init-IsValid}

abbrev shown : Flags
shown = record { visible = true; focused = false; movable = true; closable = true }

abbrev off : Manager
off = record { slots = []; focused_window = none; top_z_order = 0; prev_left_btn = false }

-- Two windows that overlap.
abbrev desktop : Manager
desktop =
    (wm_create_window (wm_create_window (wm_init off) (pos 0) (pos 0) 100 50 (codes "a") shown).0
      (pos 20) (pos 20) 100 50 (codes "b") shown).0

desktop_reached : Reach desktop
desktop_reached =
    next (next (start off) (Step.create_window (pos 0) (pos 0) 100 50 (codes "a") shown))
      (Step.create_window (pos 20) (pos 20) 100 50 (codes "b") shown)

second_on_top : wm_window_at desktop (pos 30) (pos 30) ≡ some 1
unfolding wm_window_at wm_create_window wm_init ◌+ℤ◌
second_on_top = refl

first_there : is_window desktop 0 ≡ true
unfolding wm_create_window wm_init
first_there = refl

first_here : is_candidate (point_in_window (pos 30) (pos 30)) (slot_at desktop 0) ≡ true
unfolding point_in_window wm_create_window wm_init ◌+ℤ◌
first_here = refl

window_at-focus_example : wm_window_at (wm_focus_window desktop 0) (pos 30) (pos 30) ≡ some 0
window_at-focus_example =
    window_at-focus desktop 0 (pos 30) (pos 30) (from_wm_init-IsValid desktop_reached) first_there
      first_here

from_wm_init-IsValid_example : IsValid (wm_destroy_window desktop 1)
from_wm_init-IsValid_example = from_wm_init-IsValid (next desktop_reached (Step.destroy_window 1))

drawn_last : drawing_order (wm_focus_window desktop 0) ≡ 1 ∷ 0 ∷ []
unfolding drawing_order wm_focus_window wm_create_window wm_init
drawn_last = refl
