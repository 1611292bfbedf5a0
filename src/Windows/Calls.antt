-- ===== src/Windows/Calls.antt =====
-- window_manager.c: the windows from `wm_init` on, under any sequence of calls.
use tark_os.Prelude.{
  ℕ, ◌≡◌, refl, ap, arith, inl, inr, length-replicate, get_or-replicate_self, replicate, get_or,
  take,
}
use tark_os.Prelude.{Bool, true, false, ◌&&◌, not, Bool-cases, Option-cases, if◌then◌else◌}
use tark_os.Prelude.Int.{ℤ}
use tark_os.Text.{CString}
use tark_os.Windows.{
  Window, Flags, Slot, Manager, slot_at, set_win, no_slot, wm_max_windows, wm_init,
  wm_create_window, wm_destroy_window, wm_focus_window, wm_set_position, wm_set_size, wm_set_title,
  wm_set_visible, wm_process_mouse, handle_mouse, click, dragged, drag_to, start_drag, wm_window_at,
  wm_point_in_close_button, wm_point_in_titlebar,
}
use tark_os.Windows.Invariant.{IsValid, set_win-Keeps, Keeps-IsValid}
use tark_os.Windows.Steps.{create-IsValid, focus-IsValid, destroy-IsValid, update-IsValid}

set_win-IsValid :
    (m : Manager) (h : ℕ) (w : Window)
    → IsValid m
    → w.z_order ≡ (slot_at m h).win.z_order
    → IsValid (record m { slots = set_win m.slots h w })
set_win-IsValid m h w v same =
    Keeps-IsValid m (set_win m.slots h w) v (set_win-Keeps m.slots h w same)

start_drag_order : (w : Window) (x y : ℤ) → (start_drag w x y).z_order ≡ w.z_order
start_drag_order w x y = elim (Bool-cases w.flags.movable) [ inl e ↦ rw e refl | inr e ↦ rw e refl ]

drag_order :
    (w : Window) (x y : ℤ) (left : Bool)
    → (if left then drag_to w x y else record w { is_dragging = false }).z_order ≡ w.z_order
drag_order w x y true = refl
drag_order w x y false = refl

click-IsValid : (m : Manager) (h : ℕ) (x y : ℤ) → IsValid m → IsValid (click m h x y)
unfolding click
click-IsValid m h x y v =
    let m' = wm_focus_window m h in
    let v' = focus-IsValid m h v in
    elim (Bool-cases (wm_point_in_close_button m' h x y)) [
      | inl close ↦ rw close (destroy-IsValid m' h v')
      | inr open' ↦ elim (Bool-cases (wm_point_in_titlebar m' h x y)) [
        | inl bar ↦
            rw (open', bar)
              (set_win-IsValid m' h (start_drag (slot_at m' h).win x y) v'
                (start_drag_order (slot_at m' h).win x y))
        | inr client ↦ rw (open', client) v'
      ]
    ]

handle_mouse-IsValid :
    (m : Manager) (x y : ℤ) (left : Bool) → IsValid m → IsValid (handle_mouse m x y left)
unfolding handle_mouse
handle_mouse-IsValid m x y left v = elim (Option-cases (dragged m m.focused_window)) [
  | inr (f, e) ↦
      rw (e, handle_mouse) (set_win-IsValid m f _ v (drag_order (slot_at m f).win x y left))
  | inl e ↦ elim (Bool-cases (left && not m.prev_left_btn)) [
    | inr idle ↦ rw (e, handle_mouse, idle) v
    | inl pressed ↦ elim (Option-cases (wm_window_at m x y)) [
      | inl nothing ↦ rw (e, handle_mouse, pressed, nothing) v
      | inr (k, at) ↦ rw (e, handle_mouse, pressed, at) (click-IsValid m k x y v)
    ]
  ]
]

-- `wm_process_mouse` keeps the invariant.
pub process_mouse-IsValid :
    (m : Manager) (x y : ℤ) (left : Bool) → IsValid m → IsValid (wm_process_mouse m x y left)
unfolding wm_process_mouse
process_mouse-IsValid m x y left v =
    let v' = handle_mouse-IsValid m x y left v in
    record { size = v'.size; focus = v'.focus; below_top = v'.below_top; apart = v'.apart }

-- One call.
pub data Step (m : Manager) : Manager → Type 0 where
  create_window :
      (x y : ℤ) (width height : ℕ) (title : CString) (flags : Flags)
      → Step m (wm_create_window m x y width height title flags).0
  destroy_window : (h : ℕ) → Step m (wm_destroy_window m h)
  focus_window : (h : ℕ) → Step m (wm_focus_window m h)
  set_position : (h : ℕ) (x y : ℤ) → Step m (wm_set_position m h x y)
  set_size : (h width height : ℕ) → Step m (wm_set_size m h width height)
  set_title : (h : ℕ) (title : CString) → Step m (wm_set_title m h title)
  set_visible : (h : ℕ) (visible : Bool) → Step m (wm_set_visible m h visible)
  process_mouse : (x y : ℤ) (left : Bool) → Step m (wm_process_mouse m x y left)

pub data Reach : Manager → Type 0 where
  start : (m : Manager) → Reach (wm_init m)
  next : {m n : Manager} → Reach m → Step m n → Reach n

Step-IsValid : {m n : Manager} → Step m n → IsValid m → IsValid n
unfolding wm_set_position wm_set_size wm_set_title wm_set_visible
Step-IsValid {m} (create_window x y width height title flags) v =
    create-IsValid m x y width height title flags v
Step-IsValid {m} (destroy_window h) v = destroy-IsValid m h v
Step-IsValid {m} (focus_window h) v = focus-IsValid m h v
Step-IsValid {m} (set_position h x y) v =
    update-IsValid m h (λ w. record w { x = x; y = y }) v λ w. refl
Step-IsValid {m} (set_size h width height) v =
    update-IsValid m h (λ w. record w { width = width; height = height }) v λ w. refl
Step-IsValid {m} (set_title h title) v =
    update-IsValid m h (λ w. record w { title = take 63 title }) v λ w. refl
Step-IsValid {m} (set_visible h visible) v =
    update-IsValid m h (λ w. record w { flags = record w.flags { visible = visible } }) v λ w. refl
Step-IsValid {m} (process_mouse x y left) v = process_mouse-IsValid m x y left v

pub init-IsValid : (m : Manager) → IsValid (wm_init m)
unfolding wm_init
init-IsValid m = record {
  size = length-replicate wm_max_windows no_slot;
  focus = λ f e. cc e;
  below_top = λ j. omega (arith, ap (λ (s : Slot). s.win.z_order) (unused j));
  apart = λ i j a b e. cc (ap (λ (s : Slot). s.used) (unused i));
}
  where
    unused : (j : ℕ) → get_or (replicate wm_max_windows no_slot) j no_slot ≡ no_slot
    unused j = get_or-replicate_self wm_max_windows j no_slot

-- From `wm_init` on, after any sequence of calls the focused window is a used one, no z-order is
-- above `top_z_order`, and no two used windows have one z-order.
pub from_wm_init-IsValid : {m : Manager} → Reach m → IsValid m
from_wm_init-IsValid (start m) = init-IsValid m
from_wm_init-IsValid (next r st) = Step-IsValid st (from_wm_init-IsValid r)
