-- ===== src/Graphics/Draw.antt =====
-- kernel/gui/graphics.c: rectangles, lines along the axes, panels, gradients, bitmaps and blending.
-- The coordinates of a sum of an `int32_t` and a `uint32_t` are taken modulo 2 ^ 32.
use tark_os.Prelude.{ℕ, zero, suc, ◌+◌, ◌-◌, ◌*◌, ◌/◌, ◌%◌, ◌^◌, ◌||◌, ltb, ◌==◌, if◌then◌else◌}
use tark_os.Prelude.{List, get_or, set}
use tark_os.Prelude.Int.{ℤ, pos, negsuc, ◌+ℤ◌, ◌-ℤ◌, ltb_ℤ, leb_ℤ, pos_part, to_u32}
use tark_os.Prelude.Grid.{span, block}
use tark_os.Console.{clip}
use tark_os.Graphics.{Framebuffer, buffer_of, with_buffer, fb_put_pixel, fb_get_pixel}

-- A `uint32_t` as an `int32_t`.
abbrev pub to_i32 : ℕ → ℤ
to_i32 n = if ltb n (2 ^ 31) then pos n else negsuc (2 ^ 32 - 1 - n)

-- `x + n` of an `int32_t` and a `uint32_t`, in an `int32_t`.
abbrev pub offset_by : ℤ → ℕ → ℤ
offset_by x n = to_i32 (to_u32 (x +ℤ pos n))

-- `n` rows from `y1` on, of the columns from `x1` to `x2`, by `memsetl`.
unfoldable pub gfx_fill_rect : Framebuffer → ℤ → ℤ → ℕ → ℕ → ℕ → Framebuffer
unfolding block
gfx_fill_rect s x y width height color =
    let x1 = pos_part x in
    let y1 = pos_part y in
    let x2 = clip (offset_by x width) s.width in
    let y2 = clip (offset_by y height) s.height in
    let target = buffer_of s s.double_buffering in
    if leb_ℤ x2 (pos x1) || leb_ℤ y2 (pos y1)
    then s
    else with_buffer s s.double_buffering
        (block (s.pitch / 4) x1 (pos_part x2 - x1) color (pos_part y2 - y1) y1 target)

unfoldable pub gfx_draw_hline : Framebuffer → ℤ → ℤ → ℕ → ℕ → Framebuffer
unfolding span
gfx_draw_hline s x y length color =
    let x1 = pos_part x in
    let x2 = clip (offset_by x length) s.width in
    let target = buffer_of s s.double_buffering in
    if ltb_ℤ y (pos 0) || leb_ℤ (pos s.height) y
    then s
    else if leb_ℤ x2 (pos x1)
    then s
    else with_buffer s s.double_buffering
        (span target (pos_part y * (s.pitch / 4) + x1) color (pos_part x2 - x1))

-- The loop of `gfx_draw_vline`, at row `py` with `n` to go.
unfoldable pub draw_column : List ℕ → ℕ → ℕ → ℕ → ℕ → ℕ → List ℕ
draw_column target stride x color py zero = target
draw_column target stride x color py (suc n) =
    draw_column (set target (py * stride + x) color) stride x color (py + 1) n

unfoldable pub gfx_draw_vline : Framebuffer → ℤ → ℤ → ℕ → ℕ → Framebuffer
unfolding draw_column
gfx_draw_vline s x y length color =
    let y1 = pos_part y in
    let y2 = clip (offset_by y length) s.height in
    let target = buffer_of s s.double_buffering in
    if ltb_ℤ x (pos 0) || leb_ℤ (pos s.width) x
    then s
    else if leb_ℤ y2 (pos y1)
    then s
    else with_buffer s s.double_buffering
        (draw_column target (s.pitch / 4) (pos_part x) color y1 (pos_part y2 - y1))

-- `x + n - 1`, in an `int32_t`.
abbrev pub last_of : ℤ → ℕ → ℤ
last_of x n = to_i32 (to_u32 (x +ℤ pos n +ℤ negsuc 0))

-- Two lines along the top and the left, and two along the bottom and the right.
unfoldable pub gfx_draw_rect : Framebuffer → ℤ → ℤ → ℕ → ℕ → ℕ → Framebuffer
unfolding gfx_draw_hline gfx_draw_vline
gfx_draw_rect s x y width height color =
    let top = gfx_draw_hline s x y width color in
    let bottom = gfx_draw_hline top x (last_of y height) width color in
    let left = gfx_draw_vline bottom x y height color in
    gfx_draw_vline left (last_of x width) y height color

abbrev pub color_white : ℕ
color_white = 0xFFFFFF

abbrev pub color_dark_gray : ℕ
color_dark_gray = 0x404040

-- A panel with one colour at the top and the left, and another at the bottom and the right.
abbrev pub edged : Framebuffer → ℤ → ℤ → ℕ → ℕ → ℕ → ℕ → Framebuffer
edged s x y width height color1 color2 =
    let top = gfx_draw_hline s x y width color1 in
    let left = gfx_draw_vline top x y height color1 in
    let bottom = gfx_draw_hline left x (last_of y height) width color2 in
    gfx_draw_vline bottom (last_of x width) y height color2

unfoldable pub gfx_draw_panel_raised : Framebuffer → ℤ → ℤ → ℕ → ℕ → ℕ → Framebuffer
unfolding gfx_fill_rect
gfx_draw_panel_raised s x y width height bg_color =
    edged (gfx_fill_rect s x y width height bg_color) x y width height color_white color_dark_gray

unfoldable pub gfx_draw_panel_sunken : Framebuffer → ℤ → ℤ → ℕ → ℕ → ℕ → Framebuffer
unfolding gfx_fill_rect
gfx_draw_panel_sunken s x y width height bg_color =
    edged (gfx_fill_rect s x y width height bg_color) x y width height color_dark_gray color_white

-- The channels of a colour, and `RGB`.
abbrev pub red : ℕ → ℕ
red c = c / 65536 % 256

abbrev pub green : ℕ → ℕ
green c = c / 256 % 256

abbrev pub blue : ℕ → ℕ
blue c = c % 256

abbrev pub rgb : ℕ → ℕ → ℕ → ℕ
rgb r g b = r * 65536 + g * 256 + b

abbrev pub blend_channel : ℕ → ℕ → ℕ → ℕ
blend_channel fg bg alpha = (fg * alpha + bg * (255 - alpha)) / 255 % 256

unfoldable pub gfx_blend_colors : ℕ → ℕ → ℕ → ℕ
gfx_blend_colors fg bg alpha =
    rgb (blend_channel (red fg) (red bg) alpha) (blend_channel (green fg) (green bg) alpha)
      (blend_channel (blue fg) (blue bg) alpha)

-- `c1 + ((c2 - c1) * t) / max` of two channels, in a `uint8_t`: the difference is an `int`, and the
-- product with a `uint32_t` and the quotient are `uint32_t` values.
abbrev pub interpolate_channel : ℕ → ℕ → ℕ → ℕ → ℕ
interpolate_channel c1 c2 t max = (c1 + to_u32 (pos c2 -ℤ pos c1) * t % 2 ^ 32 / max) % 256

unfoldable pub interpolate_color : ℕ → ℕ → ℕ → ℕ → ℕ
interpolate_color c1 c2 t max =
    rgb (interpolate_channel (red c1) (red c2) t max)
      (interpolate_channel (green c1) (green c2) t max)
      (interpolate_channel (blue c1) (blue c2) t max)

-- The loop of `gfx_fill_rect_gradient`, at row `py` with `n` to go.
unfoldable pub gradient_rows : Framebuffer → ℤ → ℤ → ℕ → ℕ → ℕ → ℕ → ℕ → ℕ → Framebuffer
unfolding interpolate_color gfx_draw_hline
gradient_rows s x y width height top bottom py zero = s
gradient_rows s x y width height top bottom py (suc n) =
    gradient_rows
      (gfx_draw_hline s x (offset_by y py) width (interpolate_color top bottom py height)) x y width
      height top bottom (py + 1) n

unfoldable pub gfx_fill_rect_gradient : Framebuffer → ℤ → ℤ → ℕ → ℕ → ℕ → ℕ → Framebuffer
unfolding gradient_rows
gfx_fill_rect_gradient s x y width height color_top color_bottom =
    gradient_rows s x y width height color_top color_bottom 0 height

-- The inner loop of the bitmaps, at column `px` with `n` to go, for what is done with each pixel.
unfoldable pub pixels_of_row :
    (Framebuffer → ℤ → ℤ → ℕ → Framebuffer)
    → Framebuffer
    → ℤ
    → ℤ
    → List ℕ
    → ℕ
    → ℕ
    → ℕ
    → ℕ
    → Framebuffer
pixels_of_row put s x y data_ width py px zero = s
pixels_of_row put s x y data_ width py px (suc n) =
    pixels_of_row put (put s (offset_by x px) (offset_by y py) (get_or data_ (py * width + px) 0)) x
      y data_ width py (px + 1) n

unfoldable pub pixels_of_rows :
    (Framebuffer → ℤ → ℤ → ℕ → Framebuffer) → Framebuffer → ℤ → ℤ → List ℕ → ℕ → ℕ → ℕ → Framebuffer
unfolding pixels_of_row
pixels_of_rows put s x y data_ width py zero = s
pixels_of_rows put s x y data_ width py (suc n) =
    pixels_of_rows put (pixels_of_row put s x y data_ width py 0 width) x y data_ width (py + 1) n

unfoldable pub gfx_draw_bitmap : Framebuffer → ℤ → ℤ → ℕ → ℕ → List ℕ → Framebuffer
unfolding pixels_of_rows fb_put_pixel
gfx_draw_bitmap s x y width height data_ = pixels_of_rows fb_put_pixel s x y data_ width 0 height

unfoldable pub put_blended : Framebuffer → ℤ → ℤ → ℕ → Framebuffer
unfolding fb_put_pixel fb_get_pixel gfx_blend_colors
put_blended s x y pixel =
    let alpha = pixel / 2 ^ 24 % 256 in
    if alpha == 255
    then fb_put_pixel s x y pixel
    else if ltb 0 alpha
    then fb_put_pixel s x y (gfx_blend_colors pixel (fb_get_pixel s x y) alpha)
    else s

unfoldable pub gfx_draw_bitmap_alpha : Framebuffer → ℤ → ℤ → ℕ → ℕ → List ℕ → Framebuffer
unfolding pixels_of_rows put_blended
gfx_draw_bitmap_alpha s x y width height data_ =
    pixels_of_rows put_blended s x y data_ width 0 height
