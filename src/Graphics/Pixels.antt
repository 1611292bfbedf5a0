-- ===== src/Graphics/Pixels.antt =====
-- framebuffer.c: what is read of a pixel that was written.
use tark_os.Prelude.{ℕ, ◌+◌, ◌*◌, ◌/◌, ◌≤◌, ◌<◌, ◌≡◌, refl, ◌∙◌, ap, arith}
use tark_os.Prelude.{Bool, true, false, ◌&&◌, ◌==◌, if◌then◌else◌, List, length, get_or, set}
use tark_os.Prelude.Int.{pos}
use tark_os.Prelude.Grid.{get_or-set, same_place, cell-lt}
use tark_os.Graphics.{Framebuffer, with_buffer, draw_target, is_inside, fb_put_pixel, fb_get_pixel}

-- A row of the memory holds a row of the screen, the target has all rows, and the drawing functions
-- choose the target.
pub record IsFramebuffer (s : Framebuffer) : Type 0 where
  pub row : s.width ≤ s.pitch / 4
  pub rows : s.height * (s.pitch / 4) ≤ length (draw_target s)
  pub one_target : s.to_back ≡ s.double_buffering

pub draw_target-with_buffer :
    (s : Framebuffer) (b : Bool) (buf : List ℕ)
    → s.to_back ≡ b
    → draw_target (with_buffer s b buf) ≡ buf
draw_target-with_buffer s true buf e = rw e refl
draw_target-with_buffer s false buf e = rw e refl

same_screen :
    (s : Framebuffer) (b : Bool) (buf : List ℕ)
    → ((with_buffer s b buf).width ≡ s.width)
      × ((with_buffer s b buf).height ≡ s.height)
      × ((with_buffer s b buf).pitch ≡ s.pitch)
same_screen s true buf = (refl, refl, refl)
same_screen s false buf = (refl, refl, refl)

-- A pixel on the screen is read from its place.
pub get_pixel-inside :
    (s : Framebuffer) (col row : ℕ)
    → col < s.width
    → row < s.height
    → fb_get_pixel s (pos col) (pos row) ≡ get_or (draw_target s) (row * (s.pitch / 4) + col) 0
unfolding fb_get_pixel
get_pixel-inside s col row h k =
    let inside : is_inside s (pos col) (pos row) ≡ true = ground arith in rw inside refl

pub get_pixel-with_buffer :
    (s : Framebuffer) (b : Bool) (buf : List ℕ) (col row : ℕ)
    → s.to_back ≡ b
    → col < s.width
    → row < s.height
    → fb_get_pixel (with_buffer s b buf) (pos col) (pos row)
      ≡ get_or buf (row * (s.pitch / 4) + col) 0
get_pixel-with_buffer s true buf col row e h k =
    get_pixel-inside (with_buffer s true buf) col row h k
    ∙ ap (λ t. get_or t (row * (s.pitch / 4) + col) 0) (draw_target-with_buffer s true buf e)
get_pixel-with_buffer s false buf col row e h k =
    get_pixel-inside (with_buffer s false buf) col row h k
    ∙ ap (λ t. get_or t (row * (s.pitch / 4) + col) 0) (draw_target-with_buffer s false buf e)

-- On the screen, a pixel put is the pixel read at its place, and no other pixel changes.
pub get_pixel-put_pixel :
    (s : Framebuffer) (x y col row color : ℕ)
    → IsFramebuffer s
    → x < s.width
    → y < s.height
    → col < s.width
    → row < s.height
    → fb_get_pixel (fb_put_pixel s (pos x) (pos y) color) (pos col) (pos row)
      ≡ (if y == row && x == col then color else fb_get_pixel s (pos col) (pos row))
unfolding fb_put_pixel
get_pixel-put_pixel s x y col row color v hx hy hc hr =
    let inside : is_inside s (pos x) (pos y) ≡ true = ground arith in
    let stride = s.pitch / 4 in
    let at : y * stride + x < length (draw_target s) =
      omega (arith, cell-lt stride s.height y x (omega (arith, v.row)) hy, v.rows) in
    rw inside (
      get_pixel-with_buffer s s.to_back (set (draw_target s) (y * stride + x) color) col row refl hc
        hr
      ∙ get_or-set (draw_target s) (y * stride + x) color (row * stride + col) at
      ∙ rw
          (
            same_place stride y x row col (omega (arith, v.row)) (omega (arith, v.row)),
            get_pixel-inside s col row hc hr,
          )
          refl)
