-- ===== src/Graphics/Fill.antt =====
-- graphics.c: the pixels that `gfx_fill_rect` sets, and the lines along the axes as rectangles.
use tark_os.Prelude.{ℕ, ◌+◌, ◌-◌, ◌*◌, ◌/◌, ◌^◌, ◌≤◌, ◌<◌, ◌≡◌, refl, sym, ◌∙◌, ap, arith, inl, inr}
use tark_os.Prelude.{false, ◌||◌, if◌then◌else◌, Bool-cases, length, get_or}
use tark_os.Prelude.Int.{ℤ, pos, negsuc, ◌+ℤ◌, ◌≤ℤ◌, ◌<ℤ◌, ltb_ℤ, leb_ℤ, pos_part}
use tark_os.Prelude.Grid.{block, get_or-block}
use native.Mathlib.Nat.{mul-le-mul_right}
use tark_os.Console.{clip}
use tark_os.Console.Cells.{clipped, outside, clip_fits, and_false, or_true, is_in_rect}
use tark_os.Graphics.{Framebuffer, buffer_of, draw_target, fb_get_pixel}
use tark_os.Graphics.Draw.{offset_by, gfx_fill_rect, gfx_draw_hline}
use tark_os.Graphics.Pixels.{IsFramebuffer, get_pixel-inside, get_pixel-with_buffer}

-- An `int32_t` with its sum with `n`.
abbrev pub IsInt32 : ℤ → ℕ → Type 0
IsInt32 x n = (negsuc (2 ^ 31 - 1) ≤ℤ x) × (x +ℤ pos n <ℤ pos (2 ^ 31))

offset_by-exact : (x : ℤ) (n : ℕ) → IsInt32 x n → offset_by x n ≡ x +ℤ pos n
unfolding ◌+ℤ◌
offset_by-exact (pos x) n h = ground arith
offset_by-exact (negsuc x) n h = ground arith

target-one : (s : Framebuffer) → IsFramebuffer s → buffer_of s s.double_buffering ≡ draw_target s
target-one s v = ap (buffer_of s) (sym v.one_target)

-- Where the numbers do not wrap and the buffer that is drawn on is the one that is read and holds
-- every row of the screen, as it does not for a screen larger than the back buffer, the pixels of
-- the screen in the rectangle have the colour after
-- `gfx_fill_rect`, and all others are as they were.
pub get_pixel-fill_rect :
    (s : Framebuffer) (x y : ℤ) (width height color col row : ℕ)
    → IsFramebuffer s
    → IsInt32 x width
    → IsInt32 y height
    → col < s.width
    → row < s.height
    → fb_get_pixel (gfx_fill_rect s x y width height color) (pos col) (pos row) ≡ (
        if is_in_rect x y (pos width) (pos height) row col
        then color
        else fb_get_pixel s (pos col) (pos row))
unfolding gfx_fill_rect
get_pixel-fill_rect s x y width height color col row v hx hy hc hr =
    let stride = s.pitch / 4 in
    let x2 = x +ℤ pos width in
    let y2 = y +ℤ pos height in
    let xe = offset_by-exact x width hx in
    let ye = offset_by-exact y height hy in
    elim (Bool-cases (leb_ℤ (clip y2 s.height) (pos (pos_part y)))) [
      | inl none_left ↦
          rw (xe, ye, none_left, or_true) (rw (outside y y2 s.height row hr none_left) refl)
      | inr rows ↦ elim (Bool-cases (leb_ℤ (clip x2 s.width) (pos (pos_part x)))) [
        | inl none_left ↦
            rw (xe, ye, none_left) (rw (outside x x2 s.width col hc none_left, and_false) refl)
        | inr cols ↦
            rw (xe, ye, rows, cols)
              (let n = pos_part (clip x2 s.width) - pos_part x in
                let m = pos_part (clip y2 s.height) - pos_part y in
                let fits = clip_fits x x2 s.width cols in
                let rows_fit : (pos_part y + m) * stride ≤ length (draw_target s) =
                  let below : (pos_part y + m) * stride ≤ s.height * stride =
                    mul-le-mul_right stride (clip_fits y y2 s.height rows) in
                  omega (arith, below, v.rows) in
                get_pixel-with_buffer s s.double_buffering
                  (block stride (pos_part x) n color m (pos_part y)
                    (buffer_of s s.double_buffering))
                  col row v.one_target hc hr
                ∙ ap
                    (λ b.
                      get_or (block stride (pos_part x) n color m (pos_part y) b)
                        (row * stride + col) 0)
                    (target-one s v)
                ∙ get_or-block stride (pos_part x) n color m (pos_part y) (draw_target s) row col
                    (omega (arith, v.row)) (omega (arith, fits, v.row)) rows_fit
                ∙ rw
                    (
                      clipped x x2 s.width col hc cols,
                      clipped y y2 s.height row hr rows,
                      get_pixel-inside s col row hc hr,
                    )
                    refl)
      ]
    ]

-- The rows of a rectangle one row high.
one_row :
    (y : ℤ) (high : ℕ)
    → leb_ℤ (clip (y +ℤ pos 1) high) (pos (pos_part y)) ≡ (ltb_ℤ y (pos 0) || leb_ℤ (pos high) y)
unfolding ◌+ℤ◌
one_row (pos y) high = ground arith
one_row (negsuc y) high = ground arith

one_left :
    (y : ℤ) (high : ℕ)
    → leb_ℤ (clip (y +ℤ pos 1) high) (pos (pos_part y)) ≡ false
    → pos_part (clip (y +ℤ pos 1) high) - pos_part y ≡ 1
unfolding ◌+ℤ◌
one_left (pos y) high h = ground arith
one_left (negsuc y) high h = absurd (ground (arith, h))

-- A horizontal line is a rectangle one row high.
pub draw_hline-fill_rect :
    (s : Framebuffer) (x y : ℤ) (length color : ℕ)
    → IsInt32 y 1
    → gfx_draw_hline s x y length color ≡ gfx_fill_rect s x y length 1 color
unfolding gfx_draw_hline gfx_fill_rect block
draw_hline-fill_rect s x y length color h =
    let x_off = leb_ℤ (clip (offset_by x length) s.width) (pos (pos_part x)) in
    let ye = offset_by-exact y 1 h in
    elim (Bool-cases (leb_ℤ (clip (y +ℤ pos 1) s.height) (pos (pos_part y)))) [
      | inl off ↦ rw (ye, ← one_row y s.height, off, or_true) refl
      | inr on ↦ elim (Bool-cases (leb_ℤ (clip (offset_by x length) s.width) (pos (pos_part x)))) [
        | inl none_left ↦ rw (ye, ← one_row y s.height, on, none_left) refl
        | inr some_left ↦ rw (ye, ← one_row y s.height, on, some_left, one_left y s.height on) refl
      ]
    ]
