-- ===== src/Graphics/Tests.antt =====
-- Runs of the drawing functions, on a screen of 4 by 3 pixels.
use tark_os.Prelude.{◌+◌, ◌≡◌, refl, arith, true, false, if◌then◌else◌, none, some, replicate}
use tark_os.Prelude.Int.{pos, negsuc, ◌+ℤ◌, ◌-ℤ◌, pos_part}
use tark_os.Console.Cells.{is_in_rect}
use tark_os.Graphics.{Framebuffer, fb_get_pixel, fb_set_double_buffer}
use tark_os.Graphics.Draw.{gfx_fill_rect, interpolate_channel}
use tark_os.Graphics.Pixels.{IsFramebuffer}
use tark_os.Graphics.Fill.{IsInt32, get_pixel-fill_rect}
use tark_os.Graphics.Circle.{gfx_draw_circle, gfx_fill_circle}
use tark_os.Graphics.Ends.{circles-end}

abbrev small : Framebuffer
small = record {
  memory = replicate 12 0;
  width = 4;
  height = 3;
  pitch = 16;
  back_buffer = none;
  to_back = false;
  double_buffering = false;
}

small-IsFramebuffer : IsFramebuffer small
small-IsFramebuffer = record { row = omega arith; rows = omega arith; one_target = refl }

-- A channel that falls from 255 to 0 is 37 a hundredth of the way.
falling : interpolate_channel 255 0 1 100 ≡ 37
unfolding ◌-ℤ◌
falling = refl

-- Switching the second buffer off and on again leaves it off.
switched_again :
    (fb_set_double_buffer
      (fb_set_double_buffer (fb_set_double_buffer small true) false)
      true).double_buffering
    ≡ false
unfolding fb_set_double_buffer
switched_again = refl

x_fits : IsInt32 (negsuc 0) 3
unfolding ◌+ℤ◌
x_fits = (omega arith, omega arith)

y_fits : IsInt32 (pos 1) 9
unfolding ◌+ℤ◌
y_fits = (omega arith, omega arith)

get_pixel-fill_rect_example :
    fb_get_pixel (gfx_fill_rect small (negsuc 0) (pos 1) 3 9 0xFF) (pos 1) (pos 2) ≡ (
      if is_in_rect (negsuc 0) (pos 1) (pos 3) (pos 9) 2 1
      then 0xFF
      else fb_get_pixel small (pos 1) (pos 2))
get_pixel-fill_rect_example =
    get_pixel-fill_rect small (negsuc 0) (pos 1) 3 9 0xFF 1 2 small-IsFramebuffer x_fits y_fits
      (omega arith) (omega arith)

circles-end_example :
    ((t : Framebuffer) × (gfx_draw_circle (pos_part (pos 2) + 1) small (pos 1) (pos 1) (pos 2) 0xFF
        ≡ some t))
    × ((t : Framebuffer) × (gfx_fill_circle
            (pos_part (pos 2) + 1)
            small
            (pos 1)
            (pos 1)
            (pos 2)
            0xFF
          ≡ some t))
circles-end_example =
    circles-end small (pos 1) (pos 1) (pos 2) 0xFF (omega arith, omega arith)
      (omega arith, omega arith) (omega arith)
