-- ===== src/Graphics/Circle.antt =====
-- graphics.c: circles. Both loops stop before the column is left of the row; nothing, where the
-- rounds given are not enough or an `int32_t` overflows.
use tark_os.Prelude.{ℕ, zero, suc, ◌-◌, ◌^◌, Bool, ◌&&◌, if◌then◌else◌, Option, none, some}
use tark_os.Prelude.Int.{ℤ, pos, negsuc, ◌+ℤ◌, ◌-ℤ◌, ltb_ℤ, leb_ℤ, to_u32}
use tark_os.Graphics.{Framebuffer, fb_put_pixel}
use tark_os.Graphics.Draw.{gfx_draw_hline}

abbrev pub double : ℤ → ℤ
double z = z +ℤ z

-- The eight pixels of a round.
unfoldable pub draw_octants : Framebuffer → ℤ → ℤ → ℤ → ℤ → ℕ → Framebuffer
unfolding fb_put_pixel
draw_octants s cx cy x y color =
    let s1 = fb_put_pixel s (cx +ℤ x) (cy +ℤ y) color in
    let s2 = fb_put_pixel s1 (cx +ℤ y) (cy +ℤ x) color in
    let s3 = fb_put_pixel s2 (cx -ℤ y) (cy +ℤ x) color in
    let s4 = fb_put_pixel s3 (cx -ℤ x) (cy +ℤ y) color in
    let s5 = fb_put_pixel s4 (cx -ℤ x) (cy -ℤ y) color in
    let s6 = fb_put_pixel s5 (cx -ℤ y) (cy -ℤ x) color in
    let s7 = fb_put_pixel s6 (cx +ℤ y) (cy -ℤ x) color in fb_put_pixel s7 (cx +ℤ x) (cy -ℤ y) color

-- The four lines of a round.
unfoldable pub draw_chords : Framebuffer → ℤ → ℤ → ℤ → ℤ → ℕ → Framebuffer
unfolding gfx_draw_hline
draw_chords s cx cy x y color =
    let wide = to_u32 (double x +ℤ pos 1) in
    let narrow = to_u32 (double y +ℤ pos 1) in
    let s1 = gfx_draw_hline s (cx -ℤ x) (cy +ℤ y) wide color in
    let s2 = gfx_draw_hline s1 (cx -ℤ x) (cy -ℤ y) wide color in
    let s3 = gfx_draw_hline s2 (cx -ℤ y) (cy +ℤ x) narrow color in
    gfx_draw_hline s3 (cx -ℤ y) (cy -ℤ x) narrow color

abbrev pub is_int32 : ℤ → Bool
is_int32 z = leb_ℤ (negsuc (2 ^ 31 - 1)) z && ltb_ℤ z (pos (2 ^ 31))

-- No number of a round overflows: the coordinates farthest from the centre, between which the others
-- lie, and the widest line; `err` after its two steps, and what is compared with 0.
abbrev pub round_fits : ℤ → ℤ → ℤ → ℤ → ℤ → Bool
round_fits cx cy x e1 e2 =
    ((is_int32 (cx +ℤ x) && is_int32 (cx -ℤ x)) && (is_int32 (cy +ℤ x) && is_int32 (cy -ℤ x)))
    && ((is_int32 (double x +ℤ pos 1) && is_int32 e1)
        && (is_int32 (double (e1 -ℤ x) +ℤ pos 1) && is_int32 e2))

-- The loop, with what a round draws; `ym` is `y` after its step, `e1` is `err` then.
unfoldable pub circle_loop :
    (Framebuffer → ℤ → ℤ → Framebuffer) → ℤ → ℤ → ℕ → Framebuffer → ℤ → ℤ → ℤ → Option Framebuffer
circle_loop draw cx cy zero s x y err = if leb_ℤ y x then none else some s
circle_loop draw cx cy (suc fuel) s x y err =
    let ym = y +ℤ pos 1 in
    let e1 = err +ℤ pos 1 +ℤ double ym in
    let back = ltb_ℤ (pos 0) (double (e1 -ℤ x) +ℤ pos 1) in
    let xm = if back then x -ℤ pos 1 else x in
    let e2 = if back then e1 +ℤ pos 1 -ℤ double xm else e1 in
    let rest = circle_loop draw cx cy fuel (draw s x y) xm ym e2 in
    if leb_ℤ y x then (if round_fits cx cy x e1 e2 then rest else none) else some s

unfoldable pub gfx_draw_circle : ℕ → Framebuffer → ℤ → ℤ → ℤ → ℕ → Option Framebuffer
unfolding circle_loop draw_octants
gfx_draw_circle fuel s cx cy radius color =
    circle_loop (λ t x y. draw_octants t cx cy x y color) cx cy fuel s radius (pos 0) (pos 0)

unfoldable pub gfx_fill_circle : ℕ → Framebuffer → ℤ → ℤ → ℤ → ℕ → Option Framebuffer
unfolding circle_loop draw_chords
gfx_fill_circle fuel s cx cy radius color =
    circle_loop (λ t x y. draw_chords t cx cy x y color) cx cy fuel s radius (pos 0) (pos 0)
