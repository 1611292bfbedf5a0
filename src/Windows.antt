-- ===== src/Windows.antt =====
-- kernel/gui/window_manager.c, include/kernel/window.h: the windows, their order and the mouse.
-- The arrays `windows` and `window_used` are one list of slots. A handle is a natural number: a
-- negative one is refused wherever a too large one is. `focused_window` is `none` at -1. Sums of
-- `int32_t` values are exact, and `top_z_order` is a natural number: 2 ^ 31 focus changes would
-- overflow it in C. A sum with a `uint32_t` wraps, as written out. Drawing is not modelled.
pub mod Scan
pub mod Invariant
pub mod Steps
pub mod Focus
pub mod Calls
mod Tests
use tark_os.Prelude.{ℕ, zero, suc, ◌+◌, ◌-◌, ◌%◌, ◌^◌, Bool, true, false, not, ◌&&◌, ltb, leb, ◌==◌}
use tark_os.Prelude.{
  if◌then◌else◌, Option, none, some, List, [], ◌∷◌, length, get_or, set, take, replicate,
}
use tark_os.Prelude.Int.{ℤ, to_u32, pos, negsuc, ◌+ℤ◌, ◌-ℤ◌, ltb_ℤ, leb_ℤ}
use tark_os.Text.{CString}
use tark_os.Mouse.{to_int32}

abbrev pub wm_max_windows : ℕ
wm_max_windows = 16

abbrev pub titlebar_height : ℕ
titlebar_height = 24

abbrev pub border_size : ℕ
border_size = 2

abbrev pub button_size : ℕ
button_size = 18

-- The bits of `flags` that the window manager reads or writes.
pub record Flags : Type 0 where
  pub visible : Bool
  pub focused : Bool
  pub movable : Bool
  pub closable : Bool

-- `window_t`
pub record Window : Type 0 where
  pub x : ℤ
  pub y : ℤ
  pub width : ℕ
  pub height : ℕ
  pub title : CString
  pub flags : Flags
  pub bg_color : ℕ
  pub z_order : ℕ
  pub is_dragging : Bool
  pub drag_offset_x : ℤ
  pub drag_offset_y : ℤ

-- `windows[i]` and `window_used[i]`
pub record Slot : Type 0 where
  pub win : Window
  pub used : Bool

pub record Manager : Type 0 where
  pub slots : List Slot
  pub focused_window : Option ℕ
  pub top_z_order : ℕ
  pub prev_left_btn : Bool

abbrev pub no_window : Window
no_window = record {
  x = pos 0;
  y = pos 0;
  width = 0;
  height = 0;
  title = [];
  flags = record { visible = false; focused = false; movable = false; closable = false };
  bg_color = 0;
  z_order = 0;
  is_dragging = false;
  drag_offset_x = pos 0;
  drag_offset_y = pos 0;
}

abbrev pub no_slot : Slot
no_slot = record { win = no_window; used = false }

abbrev pub slot_at : Manager → ℕ → Slot
slot_at m h = get_or m.slots h no_slot

-- The slots, with `windows[h]` written.
abbrev pub set_win : List Slot → ℕ → Window → List Slot
set_win slots h w = set slots h (record (get_or slots h no_slot) { win = w })

-- The slots after `wm_init`; the mouse button's last state stays.
unfoldable pub wm_init : Manager → Manager
wm_init m = record m {
  slots = replicate wm_max_windows no_slot;
  focused_window = none;
  top_z_order = 0;
}

-- The test at the start of each function that takes a handle.
abbrev pub is_window : Manager → ℕ → Bool
is_window m h = ltb h wm_max_windows && (slot_at m h).used

-- `windows[focused_window].flags &= ~WINDOW_FOCUSED;`
abbrev pub unfocus : List Slot → Option ℕ → List Slot
unfocus slots none = slots
unfocus slots (some f) =
    let w = (get_or slots f no_slot).win in
    if ltb f wm_max_windows
    then set_win slots f (record w { flags = record w.flags { focused = false } })
    else slots

-- `wm_focus_window` from the write of `focused_window` on.
unfoldable pub raise : Manager → List Slot → ℕ → Manager
raise m slots h =
    let w = (get_or slots h no_slot).win in
    record m {
      slots =
          set_win slots h
            (record w { flags = record w.flags { focused = true }; z_order = m.top_z_order + 1 });
      focused_window = some h;
      top_z_order = m.top_z_order + 1;
    }

unfoldable pub wm_focus_window : Manager → ℕ → Manager
unfolding raise
wm_focus_window m h = if is_window m h then raise m (unfocus m.slots m.focused_window) h else m

-- The search for a free slot at `i`.
unfoldable pub free_slot_from : List Slot → ℕ → Option ℕ
free_slot_from [] i = none
free_slot_from (s ∷ ss) i = let rest = free_slot_from ss (i + 1) in if s.used then rest else some i

-- COLOR_WINDOW_CLIENT, RGB(240, 240, 240)
abbrev pub color_window_client : ℕ
color_window_client = 0xF0F0F0

-- The writes of `wm_create_window` to the slot, before it is focused. The drag offsets stay.
unfoldable pub place_window : Manager → ℕ → ℤ → ℤ → ℕ → ℕ → CString → Flags → Manager
place_window m slot x y width height title flags = record m {
  slots = set m.slots slot (record {
    win = record (slot_at m slot).win {
      x = x;
      y = y;
      width = width;
      height = height;
      flags = flags;
      bg_color = color_window_client;
      z_order = m.top_z_order + 1;
      is_dragging = false;
      title = take 63 title;
    };
    used = true;
  });
  top_z_order = m.top_z_order + 1;
}

unfoldable pub wm_create_window : Manager → ℤ → ℤ → ℕ → ℕ → CString → Flags → Manager × Option ℕ
unfolding free_slot_from place_window wm_focus_window
wm_create_window m x y width height title flags = elim (free_slot_from m.slots 0) [
  | none ↦ (m, none)
  | some slot ↦ (wm_focus_window (place_window m slot x y width height title flags) slot, some slot)
]

-- A used and visible window that the search is for.
abbrev pub is_candidate : (Window → Bool) → Slot → Bool
is_candidate p s = s.used && s.win.flags.visible && p s.win

-- The loop of `wm_destroy_window` and of `wm_window_at`, with the test that the latter adds: the
-- variables `highest_z` and `found` at slot `i`.
unfoldable pub scan : (Window → Bool) → List Slot → ℕ → ℤ → Option ℕ → Option ℕ
scan p [] i highest_z found = found
scan p (s ∷ ss) i highest_z found =
    let hit = is_candidate p s && ltb_ℤ highest_z (pos s.win.z_order) in
    scan p ss (i + 1) (if hit then pos s.win.z_order else highest_z) (if hit then some i else found)

abbrev pub is_focus : Option ℕ → ℕ → Bool
is_focus none h = false
is_focus (some f) h = f == h

unfoldable pub wm_destroy_window : Manager → ℕ → Manager
unfolding scan
wm_destroy_window m h =
    let slots = set m.slots h (record (slot_at m h) { used = false }) in
    if is_window m h
    then record m {
      slots = slots;
      focused_window =
          if is_focus m.focused_window h
          then scan (λ w. true) slots 0 (negsuc 0) none
          else m.focused_window;
    }
    else m

-- The functions that write to the window of a handle, where it has one.
unfoldable pub update : Manager → ℕ → (Window → Window) → Manager
update m h f =
    if is_window m h then record m { slots = set_win m.slots h (f (slot_at m h).win) } else m

unfoldable pub wm_set_position : Manager → ℕ → ℤ → ℤ → Manager
unfolding update
wm_set_position m h x y = update m h λ w. record w { x = x; y = y }

unfoldable pub wm_set_size : Manager → ℕ → ℕ → ℕ → Manager
unfolding update
wm_set_size m h width height = update m h λ w. record w { width = width; height = height }

unfoldable pub wm_set_title : Manager → ℕ → CString → Manager
unfolding update
wm_set_title m h title = update m h λ w. record w { title = take 63 title }

unfoldable pub wm_set_visible : Manager → ℕ → Bool → Manager
unfolding update
wm_set_visible m h visible =
    update m h λ w. record w { flags = record w.flags { visible = visible } }

-- `from <= z && z < from + size`
abbrev pub is_within : ℤ → ℤ → ℤ → Bool
is_within z from size = leb_ℤ from z && ltb_ℤ z (from +ℤ size)

-- A sum of `uint32_t` values, as an `int32_t`.
abbrev pub int32_sum : ℕ → ℤ
int32_sum n = to_int32 (n % 2 ^ 32)

unfoldable pub point_in_window : ℤ → ℤ → Window → Bool
point_in_window x y w =
    is_within x w.x (int32_sum (w.width + border_size + border_size))
    && is_within y w.y (int32_sum (w.height + titlebar_height + border_size))

unfoldable pub wm_window_at : Manager → ℤ → ℤ → Option ℕ
unfolding scan point_in_window
wm_window_at m x y = scan (point_in_window x y) m.slots 0 (negsuc 0) none

unfoldable pub wm_point_in_titlebar : Manager → ℕ → ℤ → ℤ → Bool
wm_point_in_titlebar m h x y =
    let w = (slot_at m h).win in
    is_window m h
    && (is_within x (w.x +ℤ pos border_size) (to_int32 w.width)
        && is_within y w.y (pos titlebar_height))

-- The left edge of the close button is a sum in `uint32_t`, as `width` is one.
unfoldable pub wm_point_in_close_button : Manager → ℕ → ℤ → ℤ → Bool
wm_point_in_close_button m h x y =
    let w = (slot_at m h).win in
    is_window m h
    && (w.flags.closable
        && (is_within x
              (int32_sum (to_u32 (w.x +ℤ pos border_size) + w.width + 2 ^ 32 - button_size - 4))
              (pos button_size)
            && is_within y (w.y +ℤ pos 3) (pos button_size)))

-- The focused window while it is dragged.
abbrev pub drag_to : Window → ℤ → ℤ → Window
drag_to w x y =
    let y' = y -ℤ w.drag_offset_y in
    record w { x = x -ℤ w.drag_offset_x; y = if ltb_ℤ y' (pos 0) then pos 0 else y' }

abbrev pub start_drag : Window → ℤ → ℤ → Window
start_drag w x y =
    if w.flags.movable
    then record w { is_dragging = true; drag_offset_x = x -ℤ w.x; drag_offset_y = y -ℤ w.y }
    else w

-- A click on the window `clicked`.
unfoldable pub click : Manager → ℕ → ℤ → ℤ → Manager
unfolding wm_focus_window wm_destroy_window wm_point_in_close_button wm_point_in_titlebar
click m clicked x y =
    let m' = wm_focus_window m clicked in
    if wm_point_in_close_button m' clicked x y
    then wm_destroy_window m' clicked
    else if wm_point_in_titlebar m' clicked x y
    then record m' { slots = set_win m'.slots clicked (start_drag (slot_at m' clicked).win x y) }
    else m'

-- The number of the focused window, where it is being dragged.
abbrev pub dragged : Manager → Option ℕ → Option ℕ
dragged m none = none
dragged m (some f) = if (slot_at m f).win.is_dragging then some f else none

-- `wm_process_mouse` but for its last lines.
unfoldable pub handle_mouse : Manager → ℤ → ℤ → Bool → Manager
unfolding wm_window_at click
handle_mouse m x y left_btn = elim (dragged m m.focused_window) [
  | some f ↦
      let w = (slot_at m f).win in
      record m {
        slots =
            set_win m.slots f
              (if left_btn then drag_to w x y else record w { is_dragging = false });
      }
  | none ↦
      if left_btn && not m.prev_left_btn
      then (elim (wm_window_at m x y) [ none ↦ m | some clicked ↦ click m clicked x y ])
      else m
]

-- Of the previous mouse position, only drawing makes use.
unfoldable pub wm_process_mouse : Manager → ℤ → ℤ → Bool → Manager
unfolding handle_mouse
wm_process_mouse m x y left_btn = record (handle_mouse m x y left_btn) { prev_left_btn = left_btn }

-- The loop of `wm_compose` that collects the visible windows, at slot `i`.
unfoldable pub visible_from : List Slot → ℕ → List ℕ
visible_from [] i = []
visible_from (s ∷ ss) i =
    let rest = visible_from ss (i + 1) in if s.used && s.win.flags.visible then i ∷ rest else rest

-- The body of the inner loop of `sort_windows_by_z`.
abbrev pub swap_if : Manager → List ℕ → ℕ → List ℕ
swap_if m order j =
    let a = get_or order j 0 in
    let b = get_or order (j + 1) 0 in
    if ltb (slot_at m b).win.z_order (slot_at m a).win.z_order
    then set (set order j b) (j + 1) a
    else order

-- The inner loop at `j`, with `left` rounds to go.
unfoldable pub sort_pass : Manager → ℕ → ℕ → List ℕ → List ℕ
sort_pass m zero j order = order
sort_pass m (suc left) j order = sort_pass m left (j + 1) (swap_if m order j)

-- The outer loop at `i`.
unfoldable pub sort_passes : Manager → ℕ → ℕ → ℕ → List ℕ → List ℕ
unfolding sort_pass
sort_passes m count zero i order = order
sort_passes m count (suc left) i order =
    sort_passes m count left (i + 1) (sort_pass m (count - i - 1) 0 order)

unfoldable pub sort_windows_by_z : Manager → List ℕ → List ℕ
unfolding sort_passes
sort_windows_by_z m order = sort_passes m (length order) (length order - 1) 0 order

-- The windows that `wm_compose` draws, from the back to the front.
unfoldable pub drawing_order : Manager → List ℕ
unfolding visible_from sort_windows_by_z
drawing_order m = sort_windows_by_z m (visible_from m.slots 0)
