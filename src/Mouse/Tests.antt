-- ===== src/Mouse/Tests.antt =====
-- Runs of the mouse.
use tark_os.Prelude.{◌≡◌, refl, arith, true, false, [], ◌∷◌}
use tark_os.Prelude.Bits.{test}
use tark_os.Prelude.Int.{pos, negsuc, ◌-ℤ◌}
use tark_os.Mouse.{initial, mouse_handler, mouse_set_position}
use tark_os.Mouse.Packet.{IsValid, Moves, is_good, mouse_bytes, mouse_bytes-Moves}
use tark_os.Mouse.Calls.{Step, start, next, from_start-IsValid}

initial_cycle : initial.mouse_cycle ≡ 0
unfolding initial
initial_cycle = refl

-- 5 to the right and 3 down, with the left button.
right_down : (mouse_bytes initial (0x29 ∷ 5 ∷ 253 ∷ [])).mouse_state.y ≡ pos 3
unfolding initial mouse_handler test ◌-ℤ◌
right_down = refl

mouse_bytes-Moves_example :
    (is_good 0x29 ≡ true → Moves initial 0x29 5 253 (mouse_bytes initial (0x29 ∷ 5 ∷ 253 ∷ [])))
    × (is_good 0x29 ≡ false
        → ((mouse_bytes initial (0x29 ∷ 5 ∷ 253 ∷ [])).mouse_state ≡ initial.mouse_state)
          × ((mouse_bytes initial (0x29 ∷ 5 ∷ 253 ∷ [])).state_changed ≡ initial.state_changed))
mouse_bytes-Moves_example =
    mouse_bytes-Moves initial 0x29 5 253 (from_start-IsValid start) initial_cycle (omega arith)
      (omega arith)

from_start-IsValid_example :
    IsValid (mouse_handler (mouse_set_position initial (negsuc 4) (pos 9)) 77)
from_start-IsValid_example =
    from_start-IsValid
      (next (next start (Step.set_position (negsuc 4) (pos 9))) (Step.interrupt 77))
