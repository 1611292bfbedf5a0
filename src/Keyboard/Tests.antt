-- ===== src/Keyboard/Tests.antt =====
-- Runs of the keyboard.
use tark_os.Prelude.{◌≡◌, refl, arith, [], length-replicate}
use tark_os.Keyboard.{
  initial, no_event, key_buffer_size, keyboard_handler, keyboard_getchar, ascii_of,
}
use tark_os.Keyboard.Queue.{IsValid, queue, events_from}
use tark_os.Keyboard.Handler.{Handles, keyboard_handler-Handles}

initial-IsValid : IsValid initial
unfolding initial
initial-IsValid = record {
  buffer = length-replicate key_buffer_size no_event;
  head = omega arith;
  tail = omega arith;
}

-- With caps lock on, the key 1 gives an exclamation mark.
caps_lock_one : (keyboard_getchar (keyboard_handler (keyboard_handler initial 0x3A) 0x02)).1 ≡ b'!'
unfolding initial keyboard_handler keyboard_getchar
caps_lock_one = refl

initial_empty : queue initial ≡ []
unfolding initial events_from
initial_empty = refl

key_a : ascii_of initial 0x1E ≡ b'a'
unfolding initial ascii_of
key_a = refl

keyboard_handler-Handles_example : Handles initial 0x1E
keyboard_handler-Handles_example = keyboard_handler-Handles initial 0x1E initial-IsValid
