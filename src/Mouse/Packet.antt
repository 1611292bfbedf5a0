-- ===== src/Mouse/Packet.antt =====
-- mouse.c: the handler over the bytes of a packet, and over any bytes.
use tark_os.Prelude.{ℕ, ◌+◌, ◌%◌, ◌^◌, ◌<◌, ◌≡◌, refl, ◌∙◌, ap, arith, inl, inr}
use tark_os.Prelude.{Bool, true, false, not, ◌&&◌, ◌||◌, ◌==◌, Bool-cases}
use tark_os.Prelude.{List, [], ◌∷◌, length, length-set, get_or, set}
use tark_os.Prelude.Bits.{test}
use tark_os.Prelude.Int.{◌+ℤ◌, ◌-ℤ◌}
use tark_os.Mouse.{
  Mouse, sign_extend, take_packet, apply_packet, mouse_handler, always_1, x_overflow, y_overflow,
  x_sign, y_sign, left_btn, right_btn, middle_btn, clamp_axis,
}
use tark_os.Mouse.Clamp.{
  IsScreen, IsInside, IsInt32, nearest, clamp_axis-nearest, nearest-IsInside, moved-IsInt32,
}

-- The position is on the screen, and the packet's next byte has a place.
pub record IsValid (s : Mouse) : Type 0 where
  pub width : IsScreen s.max_x
  pub height : IsScreen s.max_y
  pub column : IsInside s.mouse_state.x s.max_x
  pub row : IsInside s.mouse_state.y s.max_y
  pub cycle : s.mouse_cycle < 3
  pub packet : length s.mouse_packet ≡ 3

pub clamp_axis-IsInside : (z : _) (max : ℕ) → IsScreen max → IsInside (clamp_axis z max) max
clamp_axis-IsInside z max h = rw (clamp_axis-nearest z max h) (nearest-IsInside z max h)

apply_packet-IsValid : (s : Mouse) → IsValid s → IsValid (apply_packet s)
unfolding apply_packet
apply_packet-IsValid s v =
    let b0 = get_or s.mouse_packet 0 0 in
    let dx = sign_extend (test b0 x_sign) (get_or s.mouse_packet 1 0) in
    let dy = sign_extend (test b0 y_sign) (get_or s.mouse_packet 2 0) in
    record {
      width = v.width;
      height = v.height;
      column = clamp_axis-IsInside (s.mouse_state.x +ℤ dx) s.max_x v.width;
      row = clamp_axis-IsInside (s.mouse_state.y -ℤ dy) s.max_y v.height;
      cycle = v.cycle;
      packet = v.packet;
    }

take_packet-IsValid : (s : Mouse) → IsValid s → IsValid (take_packet s)
unfolding take_packet
take_packet-IsValid s v =
    let b0 = get_or s.mouse_packet 0 0 in
    elim (Bool-cases (test b0 always_1)) [
      | inr bad ↦ rw bad v
      | inl good ↦ elim (Bool-cases (test b0 x_overflow || test b0 y_overflow)) [
        | inl over ↦ rw (good, over) v
        | inr fits ↦ rw (good, fits) (apply_packet-IsValid s v)
      ]
    ]

-- `mouse_handler` keeps the mouse valid, whatever the byte.
pub mouse_handler-IsValid : (s : Mouse) (byte : ℕ) → IsValid s → IsValid (mouse_handler s byte)
unfolding mouse_handler
mouse_handler-IsValid s byte v = elim (Bool-cases ((s.mouse_cycle + 1) % 2 ^ 8 == 3)) [
  | inl last ↦ rw last (
      take_packet-IsValid _ record {
        width = v.width;
        height = v.height;
        column = v.column;
        row = v.row;
        cycle = omega arith;
        packet = length-set s.mouse_packet s.mouse_cycle byte ∙ v.packet;
      })
  | inr more ↦ rw more record {
    width = v.width;
    height = v.height;
    column = v.column;
    row = v.row;
    cycle = ground (arith, v.cycle);
    packet = length-set s.mouse_packet s.mouse_cycle byte ∙ v.packet;
  }
]

take_packet_cycle : (s : Mouse) → (take_packet s).mouse_cycle ≡ s.mouse_cycle
unfolding take_packet apply_packet
take_packet_cycle s =
    let b0 = get_or s.mouse_packet 0 0 in
    elim (Bool-cases (test b0 always_1)) [
      | inr bad ↦ rw bad refl
      | inl good ↦ elim (Bool-cases (test b0 x_overflow || test b0 y_overflow)) [
        | inl over ↦ rw (good, over) refl
        | inr fits ↦ rw (good, fits) refl
      ]
    ]

handler_cycle :
    (s : Mouse) (byte : ℕ)
    → s.mouse_cycle < 3
    → (mouse_handler s byte).mouse_cycle ≡ (s.mouse_cycle + 1) % 3
unfolding mouse_handler
handler_cycle s byte h = elim (Bool-cases ((s.mouse_cycle + 1) % 2 ^ 8 == 3)) [
  | inl last ↦ rw (last, take_packet_cycle) (ground arith)
  | inr more ↦ rw more (ground arith)
]

-- The handler over the bytes that arrive.
abbrev pub mouse_bytes : Mouse → List ℕ → Mouse
mouse_bytes s [] = s
mouse_bytes s (b ∷ bs) = mouse_bytes (mouse_handler s b) bs

-- The place of the next byte in its packet depends on the number of bytes alone: the handler
-- drops a bad packet whole, and never shifts to another byte as a packet's first.
pub mouse_bytes_cycle :
    (s : Mouse) (bytes : List ℕ)
    → s.mouse_cycle < 3
    → (mouse_bytes s bytes).mouse_cycle ≡ (s.mouse_cycle + length bytes) % 3
mouse_bytes_cycle s [] h = omega arith
mouse_bytes_cycle s (b ∷ bs) h =
    mouse_bytes_cycle (mouse_handler s b) bs (omega (arith, handler_cycle s b h))
    ∙ omega (arith, handler_cycle s b h)

set_three : (p : List ℕ) (a b c : ℕ) → length p ≡ 3 → set (set (set p 0 a) 1 b) 2 c ≡ a ∷ b ∷ c ∷ []
set_three [] a b c e = absurd (omega arith)
set_three (x ∷ []) a b c e = absurd (omega arith)
set_three (x ∷ y ∷ []) a b c e = absurd (omega arith)
set_three (x ∷ y ∷ z ∷ []) a b c e = refl
set_three (x ∷ y ∷ z ∷ w ∷ p) a b c e = absurd (omega arith)

three_bytes :
    (s : Mouse) (b0 b1 b2 : ℕ)
    → s.mouse_cycle ≡ 0
    → length s.mouse_packet ≡ 3
    → mouse_bytes s (b0 ∷ b1 ∷ b2 ∷ [])
      ≡ take_packet (record s { mouse_packet = b0 ∷ b1 ∷ b2 ∷ []; mouse_cycle = 0 })
unfolding mouse_handler
three_bytes s b0 b1 b2 start size = rw start (
    ap (λ p. take_packet (record s { mouse_packet = p; mouse_cycle = 0 }))
      (set_three s.mouse_packet b0 b1 b2 size))

-- A packet that the handler takes: bit 3 of its first byte is set, and no overflow bit is.
abbrev pub is_good : ℕ → Bool
is_good b0 = test b0 always_1 && not (test b0 x_overflow || test b0 y_overflow)

-- The position moves by the packet's two signed bytes, the second upwards, to the closest place
-- on the screen; neither sum overflows.
abbrev pub Moves : Mouse → ℕ → ℕ → ℕ → Mouse → Type 0
Moves s b0 b1 b2 t =
    let dx = sign_extend (test b0 x_sign) b1 in
    let dy = sign_extend (test b0 y_sign) b2 in
    (IsInt32 (s.mouse_state.x +ℤ dx) × IsInt32 (s.mouse_state.y -ℤ dy))
    × (t.mouse_state.x ≡ nearest (s.mouse_state.x +ℤ dx) s.max_x)
    × (t.mouse_state.y ≡ nearest (s.mouse_state.y -ℤ dy) s.max_y)
    × (t.mouse_state.left_button ≡ test b0 left_btn)
    × (t.mouse_state.right_button ≡ test b0 right_btn)
    × (t.mouse_state.middle_button ≡ test b0 middle_btn)
    × (t.state_changed ≡ true)

-- For a valid mouse at the start of a packet, three bytes of a good packet move the position by
-- its two signed bytes, to the closest place on the screen and without overflow, set the buttons
-- and the flag; three bytes of any other packet leave position, buttons and flag.
pub mouse_bytes-Moves :
    (s : Mouse) (b0 b1 b2 : ℕ)
    → IsValid s
    → s.mouse_cycle ≡ 0
    → b1 < 256
    → b2 < 256
    → (is_good b0 ≡ true → Moves s b0 b1 b2 (mouse_bytes s (b0 ∷ b1 ∷ b2 ∷ [])))
      × (is_good b0 ≡ false
          → ((mouse_bytes s (b0 ∷ b1 ∷ b2 ∷ [])).mouse_state ≡ s.mouse_state)
            × ((mouse_bytes s (b0 ∷ b1 ∷ b2 ∷ [])).state_changed ≡ s.state_changed))
unfolding take_packet apply_packet
mouse_bytes-Moves s b0 b1 b2 v start small small' =
    rw (three_bytes s b0 b1 b2 start v.packet) (elim (Bool-cases (test b0 always_1)) [
      | inr bad ↦ rw bad (λ good. cc good, λ m. (refl, refl))
      | inl ok ↦ elim (Bool-cases (test b0 x_overflow || test b0 y_overflow)) [
        | inl over ↦ rw (ok, over) (λ good. cc good, λ m. (refl, refl))
        | inr fits ↦
            rw (ok, fits)
              (
                λ good. (
                  (
                    (moved-IsInt32 s.mouse_state.x s.max_x b1 (test b0 x_sign) v.width v.column
                        small).0,
                    (moved-IsInt32 s.mouse_state.y s.max_y b2 (test b0 y_sign) v.height v.row
                        small').1,
                  ),
                  clamp_axis-nearest (s.mouse_state.x +ℤ sign_extend (test b0 x_sign) b1) s.max_x
                      v.width,
                  clamp_axis-nearest (s.mouse_state.y -ℤ sign_extend (test b0 y_sign) b2) s.max_y
                      v.height,
                  refl,
                  refl,
                  refl,
                  refl,
                ),
                λ m. cc m,
              )
      ]
    ])
