-- ===== src/Mouse/Calls.antt =====
-- mouse.c: the mouse from its static start on, under any sequence of interrupts and calls.
use tark_os.Prelude.{ℕ, ◌/◌, refl, arith}
use tark_os.Prelude.Int.{ℤ}
use tark_os.Mouse.{
  Mouse, initial, mouse_handler, mouse_init, mouse_set_bounds, mouse_set_position,
  mouse_clear_changed, to_int32,
}
use tark_os.Mouse.Clamp.{IsScreen, IsInside, clamp_high-IsInside, to_int32-pos}
use tark_os.Mouse.Packet.{IsValid, clamp_axis-IsInside, mouse_handler-IsValid}

-- One interrupt or call. The sizes are those of a screen.
pub data Step (s : Mouse) : Mouse → Type 0 where
  interrupt : (byte : ℕ) → Step s (mouse_handler s byte)
  init : (width height : ℕ) → IsScreen width → IsScreen height → Step s (mouse_init s width height)
  set_bounds :
      (width height : ℕ)
      → IsScreen width
      → IsScreen height
      → Step s (mouse_set_bounds s width height)
  set_position : (x y : ℤ) → Step s (mouse_set_position s x y)
  clear_changed : Step s (mouse_clear_changed s)

pub data Reach : Mouse → Type 0 where
  start : Reach initial
  next : {s t : Mouse} → Reach s → Step s t → Reach t

initial-IsValid : IsValid initial
unfolding initial
initial-IsValid = record {
  width = record { some_pixel = omega arith; room = omega arith };
  height = record { some_pixel = omega arith; room = omega arith };
  column = (omega arith, omega arith);
  row = (omega arith, omega arith);
  cycle = omega arith;
  packet = refl;
}

middle-IsInside : (max : ℕ) → IsScreen max → IsInside (to_int32 (max / 2)) max
middle-IsInside max h =
    rw (to_int32-pos (max / 2) (omega (arith, h.room))) (omega arith, omega (arith, h.some_pixel))

Step-IsValid : {s t : Mouse} → Step s t → IsValid s → IsValid t
unfolding mouse_init mouse_set_bounds mouse_set_position mouse_clear_changed
Step-IsValid {s} (interrupt byte) v = mouse_handler-IsValid s byte v
Step-IsValid {s} (init width height w h) v = record {
  width = w;
  height = h;
  column = middle-IsInside width w;
  row = middle-IsInside height h;
  cycle = v.cycle;
  packet = v.packet;
}
Step-IsValid {s} (set_bounds width height w h) v = record {
  width = w;
  height = h;
  column = clamp_high-IsInside s.mouse_state.x width w v.column.0;
  row = clamp_high-IsInside s.mouse_state.y height h v.row.0;
  cycle = v.cycle;
  packet = v.packet;
}
Step-IsValid {s} (set_position x y) v = record {
  width = v.width;
  height = v.height;
  column = clamp_axis-IsInside x s.max_x v.width;
  row = clamp_axis-IsInside y s.max_y v.height;
  cycle = v.cycle;
  packet = v.packet;
}
Step-IsValid {s} clear_changed v = record {
  width = v.width;
  height = v.height;
  column = v.column;
  row = v.row;
  cycle = v.cycle;
  packet = v.packet;
}

-- From the static start on, any sequence of interrupts with any bytes and of calls, with the sizes
-- of screens, leaves the position on the screen and the packet's next byte a place in its array.
pub from_start-IsValid : {s : Mouse} → Reach s → IsValid s
from_start-IsValid start = initial-IsValid
from_start-IsValid (next r st) = Step-IsValid st (from_start-IsValid r)
