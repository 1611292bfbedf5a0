-- ===== src/Mouse.antt =====
-- kernel/drivers/mouse.c, include/kernel/mouse.h: the PS/2 mouse. The file's static variables are
-- the record `Mouse`. The byte that the handler reads from the data port is its argument. Sums of
-- `int32_t` values are exact here: the theorems show that they fit.
pub mod Clamp
pub mod Packet
pub mod Calls
mod Tests
use tark_os.Prelude.{ℕ, ◌+◌, ◌-◌, ◌/◌, ◌%◌, ◌^◌, Bool, true, false, not, ◌||◌, ltb, leb, ◌==◌}
use tark_os.Prelude.{if◌then◌else◌, List, [], ◌∷◌, get_or, set}
use tark_os.Prelude.Bits.{test}
use tark_os.Prelude.Int.{ℤ, pos, negsuc, ◌+ℤ◌, ◌-ℤ◌, ltb_ℤ, leb_ℤ}

-- `mouse_state_t`
pub record MouseState : Type 0 where
  pub x : ℤ
  pub y : ℤ
  pub dx : ℤ
  pub dy : ℤ
  pub left_button : Bool
  pub right_button : Bool
  pub middle_button : Bool

pub record Mouse : Type 0 where
  pub mouse_state : MouseState
  pub max_x : ℕ
  pub max_y : ℕ
  pub mouse_cycle : ℕ
  pub mouse_packet : List ℕ
  pub state_changed : Bool

-- The static variables at the start.
unfoldable pub initial : Mouse
initial = record {
  mouse_state = record {
    x = pos 0;
    y = pos 0;
    dx = pos 0;
    dy = pos 0;
    left_button = false;
    right_button = false;
    middle_button = false;
  };
  max_x = 1024;
  max_y = 768;
  mouse_cycle = 0;
  mouse_packet = 0 ∷ 0 ∷ 0 ∷ [];
  state_changed = false;
}

-- The bits of a packet's first byte: MOUSE_LEFT_BTN, MOUSE_RIGHT_BTN, MOUSE_MIDDLE_BTN,
-- MOUSE_ALWAYS_1, MOUSE_X_SIGN, MOUSE_Y_SIGN, MOUSE_X_OVERFLOW, MOUSE_Y_OVERFLOW.
abbrev pub left_btn : ℕ
left_btn = 0

abbrev pub right_btn : ℕ
right_btn = 1

abbrev pub middle_btn : ℕ
middle_btn = 2

abbrev pub always_1 : ℕ
always_1 = 3

abbrev pub x_sign : ℕ
x_sign = 4

abbrev pub y_sign : ℕ
y_sign = 5

abbrev pub x_overflow : ℕ
x_overflow = 6

abbrev pub y_overflow : ℕ
y_overflow = 7

-- `(int32_t)n` of a `uint32_t`.
abbrev pub to_int32 : ℕ → ℤ
to_int32 n = if ltb n (2 ^ 31) then pos n else negsuc (2 ^ 32 - 1 - n)

-- A byte, or the byte `| 0xFFFFFF00`, as an `int32_t`.
abbrev pub sign_extend : Bool → ℕ → ℤ
sign_extend sign byte = if sign then negsuc (255 - byte) else pos byte

-- `if (x >= (int32_t)max) x = max - 1;`
unfoldable pub clamp_high : ℤ → ℕ → ℤ
clamp_high z max = if leb_ℤ (to_int32 max) z then to_int32 ((max + 2 ^ 32 - 1) % 2 ^ 32) else z

-- Both tests of one coordinate.
unfoldable pub clamp_axis : ℤ → ℕ → ℤ
unfolding clamp_high
clamp_axis z max = clamp_high (if ltb_ℤ z (pos 0) then pos 0 else z) max

-- The handler from the button states on, for a complete packet.
unfoldable pub apply_packet : Mouse → Mouse
unfolding clamp_axis
apply_packet s =
    let b0 = get_or s.mouse_packet 0 0 in
    let dx = sign_extend (test b0 x_sign) (get_or s.mouse_packet 1 0) in
    let dy = sign_extend (test b0 y_sign) (get_or s.mouse_packet 2 0) in
    record s {
      mouse_state = record {
        x = clamp_axis (s.mouse_state.x +ℤ dx) s.max_x;
        y = clamp_axis (s.mouse_state.y -ℤ dy) s.max_y;
        dx = dx;
        dy = pos 0 -ℤ dy;
        left_button = test b0 left_btn;
        right_button = test b0 right_btn;
        middle_button = test b0 middle_btn;
      };
      state_changed = true;
    }

-- The handler of a complete packet.
unfoldable pub take_packet : Mouse → Mouse
unfolding apply_packet
take_packet s =
    let b0 = get_or s.mouse_packet 0 0 in
    if not (test b0 always_1)
    then s
    else if test b0 x_overflow || test b0 y_overflow
    then s
    else apply_packet s

unfoldable pub mouse_handler : Mouse → ℕ → Mouse
unfolding take_packet
mouse_handler s byte =
    let packet = set s.mouse_packet s.mouse_cycle byte in
    let cycle = (s.mouse_cycle + 1) % 2 ^ 8 in
    if cycle == 3
    then take_packet (record s { mouse_packet = packet; mouse_cycle = 0 })
    else record s { mouse_packet = packet; mouse_cycle = cycle }

-- The writes of `mouse_init` to the static variables.
unfoldable pub mouse_init : Mouse → ℕ → ℕ → Mouse
mouse_init s screen_width screen_height = record s {
  max_x = screen_width;
  max_y = screen_height;
  mouse_state = record s.mouse_state {
    x = to_int32 (screen_width / 2);
    y = to_int32 (screen_height / 2);
  };
}

unfoldable pub mouse_set_bounds : Mouse → ℕ → ℕ → Mouse
unfolding clamp_high
mouse_set_bounds s width height = record s {
  max_x = width;
  max_y = height;
  mouse_state = record s.mouse_state {
    x = clamp_high s.mouse_state.x width;
    y = clamp_high s.mouse_state.y height;
  };
}

unfoldable pub mouse_set_position : Mouse → ℤ → ℤ → Mouse
unfolding clamp_axis
mouse_set_position s x y = record s {
  mouse_state = record s.mouse_state { x = clamp_axis x s.max_x; y = clamp_axis y s.max_y };
  state_changed = true;
}

unfoldable pub mouse_state_changed : Mouse → Bool
mouse_state_changed s = s.state_changed

unfoldable pub mouse_clear_changed : Mouse → Mouse
mouse_clear_changed s = record s { state_changed = false }
