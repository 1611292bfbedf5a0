-- ===== src/Mouse/Clamp.antt =====
-- mouse.c: the position on the screen.
use tark_os.Prelude.{ℕ, ◌+◌, ◌-◌, ◌%◌, ◌^◌, ◌≤◌, ◌<◌, ◌≡◌, refl, arith, Bool, true, false}
use tark_os.Prelude.{if◌then◌else◌}
use tark_os.Prelude.Int.{ℤ, pos, negsuc, ◌+ℤ◌, ◌-ℤ◌, ◌≤ℤ◌, ◌<ℤ◌, ltb_ℤ, leb_ℤ, +ℤ_parts, -ℤ_parts}
use tark_os.Mouse.{to_int32, sign_extend, clamp_high, clamp_axis}

-- A screen's width or height, with room for a movement behind it.
pub record IsScreen (max : ℕ) : Type 0 where
  pub some_pixel : 1 ≤ max
  pub room : max + 256 ≤ 2 ^ 31

-- A coordinate on the screen.
abbrev pub IsInside : ℤ → ℕ → Type 0
IsInside z max = (pos 0 ≤ℤ z) × (z <ℤ pos max)

-- The coordinate of the screen that is closest to `z`.
abbrev pub nearest : ℤ → ℕ → ℤ
nearest z max =
    if ltb_ℤ z (pos 0) then pos 0 else if ltb_ℤ (pos (max - 1)) z then pos (max - 1) else z

pub to_int32-pos : (n : ℕ) → n < 2 ^ 31 → to_int32 n ≡ pos n
to_int32-pos n h = ground arith

last_pixel : (max : ℕ) → IsScreen max → to_int32 ((max + 2 ^ 32 - 1) % 2 ^ 32) ≡ pos (max - 1)
last_pixel max h =
    let wrapped : (max + 2 ^ 32 - 1) % 2 ^ 32 ≡ max - 1 = omega (arith, h.some_pixel, h.room) in
    rw wrapped (to_int32-pos (max - 1) (omega (arith, h.room)))

clamp_high_lem :
    (z : ℤ) (max : ℕ)
    → IsScreen max
    → clamp_high z max ≡ (if leb_ℤ (pos max) z then pos (max - 1) else z)
unfolding clamp_high
clamp_high_lem z max h = rw (to_int32-pos max (omega (arith, h.room)), last_pixel max h) refl

pub clamp_high-IsInside :
    (z : ℤ) (max : ℕ) → IsScreen max → pos 0 ≤ℤ z → IsInside (clamp_high z max) max
clamp_high-IsInside (pos n) max h l =
    rw (clamp_high_lem (pos n) max h) (ground (arith, h.some_pixel))
clamp_high-IsInside (negsuc n) max h l = absurd (omega arith)

-- The code's clamping picks the closest coordinate of the screen.
pub clamp_axis-nearest : (z : ℤ) (max : ℕ) → IsScreen max → clamp_axis z max ≡ nearest z max
unfolding clamp_axis
clamp_axis-nearest (pos n) max h =
    rw (clamp_high_lem (if ltb_ℤ (pos n) (pos 0) then pos 0 else pos n) max h)
      (ground (arith, h.some_pixel))
clamp_axis-nearest (negsuc n) max h =
    rw (clamp_high_lem (if ltb_ℤ (negsuc n) (pos 0) then pos 0 else negsuc n) max h)
      (ground (arith, h.some_pixel))

pub nearest-IsInside : (z : ℤ) (max : ℕ) → IsScreen max → IsInside (nearest z max) max
nearest-IsInside (pos n) max h = ground (arith, h.some_pixel)
nearest-IsInside (negsuc n) max h = ground (arith, h.some_pixel)

-- A value of an `int32_t`.
abbrev pub IsInt32 : ℤ → Type 0
IsInt32 z = (negsuc (2 ^ 31 - 1) ≤ℤ z) × (z <ℤ pos (2 ^ 31))

pub moved-IsInt32 :
    (z : ℤ) (max byte : ℕ) (sign : Bool)
    → IsScreen max
    → IsInside z max
    → byte < 256
    → IsInt32 (z +ℤ sign_extend sign byte) × IsInt32 (z -ℤ sign_extend sign byte)
moved-IsInt32 z max byte true h i b = (
  (
    omega (arith, i.0, i.1, h.room, +ℤ_parts z (negsuc (255 - byte))),
    omega (arith, i.0, i.1, h.room, +ℤ_parts z (negsuc (255 - byte))),
  ),
  (
    omega (arith, i.0, i.1, h.room, -ℤ_parts z (negsuc (255 - byte))),
    omega (arith, i.0, i.1, h.room, -ℤ_parts z (negsuc (255 - byte))),
  ),
)
moved-IsInt32 z max byte false h i b = (
  (
    omega (arith, i.0, i.1, h.room, +ℤ_parts z (pos byte)),
    omega (arith, i.0, i.1, h.room, +ℤ_parts z (pos byte)),
  ),
  (
    omega (arith, i.0, i.1, h.room, -ℤ_parts z (pos byte)),
    omega (arith, i.0, i.1, h.room, -ℤ_parts z (pos byte)),
  ),
)
