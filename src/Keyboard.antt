-- ===== src/Keyboard.antt =====
-- kernel/drivers/keyboard.c, include/kernel/keyboard.h: the PS/2 keyboard. The file's static
-- variables are the record `Keyboard`. The byte that the handler reads from the data port is its
-- argument. `char` and `uint8_t` values are natural numbers below 256.
pub mod Queue
pub mod Handler
mod Tests
use tark_os.Prelude.{
  ℕ, zero, suc, ◌+◌, ◌-◌, ◌*◌, ◌%◌, Bool, true, false, not, ◌&&◌, ◌||◌, leb, ◌==◌,
}
use tark_os.Prelude.{if◌then◌else◌, Option, none, some, List, [], ◌∷◌, ◌++◌, codes, get_or, set}
use tark_os.Prelude.{replicate}

abbrev pub key_buffer_size : ℕ
key_buffer_size = 256

-- `key_event_t`
pub record KeyEvent : Type 0 where
  pub scancode : ℕ
  pub ascii : ℕ
  pub pressed : Bool
  pub shift : Bool
  pub ctrl : Bool
  pub alt : Bool

-- An entry of the static array, before it is written.
abbrev pub no_event : KeyEvent
no_event = record {
  scancode = 0;
  ascii = 0;
  pressed = false;
  shift = false;
  ctrl = false;
  alt = false;
}

pub record Keyboard : Type 0 where
  pub shift_pressed : Bool
  pub ctrl_pressed : Bool
  pub alt_pressed : Bool
  pub capslock_on : Bool
  pub key_buffer : List KeyEvent
  pub buffer_head : ℕ
  pub buffer_tail : ℕ

-- The static variables at the start.
unfoldable pub initial : Keyboard
initial = record {
  shift_pressed = false;
  ctrl_pressed = false;
  alt_pressed = false;
  capslock_on = false;
  key_buffer = replicate key_buffer_size no_event;
  buffer_head = 0;
  buffer_tail = 0;
}

abbrev pub keypad_and_rest : List ℕ
keypad_and_rest = 42 ∷ 0 ∷ 32 ∷ replicate 13 0 ++ codes "789-456+1230." ++ replicate 44 0

abbrev pub scancode_to_ascii_lower : List ℕ
scancode_to_ascii_lower =
    0 ∷ 27 ∷ codes "1234567890-="
    ++ 8 ∷ 9 ∷ codes "qwertyuiop[]"
    ++ 10 ∷ 0 ∷ codes "asdfghjkl;"
    ++ 39 ∷ 96 ∷ 0 ∷ 92 ∷ codes "zxcvbnm,./"
    ++ 0 ∷ keypad_and_rest

abbrev pub scancode_to_ascii_upper : List ℕ
scancode_to_ascii_upper =
    0 ∷ 27 ∷ codes "!@#$%^&*()_+"
    ++ 8 ∷ 9 ∷ codes "QWERTYUIOP{}"
    ++ 10 ∷ 0 ∷ codes "ASDFGHJKL:"
    ++ 34 ∷ 126 ∷ 0 ∷ 124 ∷ codes "ZXCVBNM<>?"
    ++ 0 ∷ keypad_and_rest

unfoldable pub buffer_push : Keyboard → KeyEvent → Keyboard
buffer_push s event =
    let next = (s.buffer_head + 1) % key_buffer_size in
    if next == s.buffer_tail
    then s
    else record s { key_buffer = set s.key_buffer s.buffer_head event; buffer_head = next }

unfoldable pub buffer_pop : Keyboard → Keyboard × Option KeyEvent
buffer_pop s = if s.buffer_tail == s.buffer_head then (s, none) else (
  record s { buffer_tail = (s.buffer_tail + 1) % key_buffer_size },
  some (get_or s.key_buffer s.buffer_tail no_event),
)

abbrev pub key_lshift : ℕ
key_lshift = 0x2A

abbrev pub key_rshift : ℕ
key_rshift = 0x36

abbrev pub key_ctrl : ℕ
key_ctrl = 0x1D

abbrev pub key_alt : ℕ
key_alt = 0x38

abbrev pub key_capslock : ℕ
key_capslock = 0x3A

-- `a ^ b` of two `bool` values.
abbrev pub xor : Bool → Bool → Bool
xor true b = not b
xor false b = b

abbrev pub lower_of : ℕ → ℕ
lower_of key = get_or scancode_to_ascii_lower key 0

abbrev pub upper_of : ℕ → ℕ
upper_of key = get_or scancode_to_ascii_upper key 0

-- The character of a key, with both tests behind the tables.
unfoldable pub ascii_of : Keyboard → ℕ → ℕ
ascii_of s key =
    let ascii = if xor s.shift_pressed s.capslock_on then upper_of key else lower_of key in
    if (leb 65 ascii && leb ascii 90) && (not s.shift_pressed && s.capslock_on)
    then ascii
    else if (leb 97 ascii && leb ascii 122) && (s.shift_pressed && s.capslock_on)
    then lower_of key
    else ascii

-- The event of a key that is not a modifier.
unfoldable pub event_of : Keyboard → ℕ → Bool → KeyEvent
unfolding ascii_of
event_of s key released = record {
  scancode = key;
  ascii = ascii_of s key;
  pressed = not released;
  shift = s.shift_pressed;
  ctrl = s.ctrl_pressed;
  alt = s.alt_pressed;
}

-- The handler of a byte from the port. KEY_RELEASE is the byte's bit 7, and the key its other bits.
unfoldable pub keyboard_handler : Keyboard → ℕ → Keyboard
unfolding buffer_push event_of
keyboard_handler s scancode =
    let released = leb 128 scancode in
    let key = scancode % 128 in
    if key == key_lshift || key == key_rshift
    then record s { shift_pressed = not released }
    else if key == key_ctrl
    then record s { ctrl_pressed = not released }
    else if key == key_alt
    then record s { alt_pressed = not released }
    else if key == key_capslock
    then (if released then s else record s { capslock_on = not s.capslock_on })
    else buffer_push s (event_of s key released)

unfoldable pub keyboard_has_key : Keyboard → Bool
keyboard_has_key s = not (s.buffer_tail == s.buffer_head)

unfoldable pub keyboard_get_event : Keyboard → Keyboard × Option KeyEvent
unfolding buffer_pop
keyboard_get_event s = buffer_pop s

-- The loop of `keyboard_getchar`. Each round takes an event, so `key_buffer_size` rounds reach the
-- end of the buffer.
unfoldable pub getchar_loop : ℕ → Keyboard → Keyboard × ℕ
unfolding buffer_pop
getchar_loop zero s = (s, 0)
getchar_loop (suc fuel) s =
    let rest = getchar_loop fuel (buffer_pop s).0 in
    elim (buffer_pop s).1 [
      | none ↦ (s, 0)
      | some e ↦ if e.pressed && not (e.ascii == 0) then ((buffer_pop s).0, e.ascii) else rest
    ]

unfoldable pub keyboard_getchar : Keyboard → Keyboard × ℕ
unfolding getchar_loop
keyboard_getchar s = getchar_loop key_buffer_size s
