-- ===== src/Graphics/Cursor.antt =====
-- graphics.c: the mouse pointer, and what it covers.
use tark_os.Prelude.{
  ℕ, zero, suc, ◌+◌, ◌-◌, ◌*◌, Bool, false, ◌&&◌, ◌==◌, if◌then◌else◌, List, ◌++◌, map, codes,
  get_or, set,
}
use tark_os.Prelude.Int.{ℤ, pos, negsuc, ◌+ℤ◌}
use tark_os.Graphics.{Framebuffer, fb_put_pixel, fb_get_pixel}
use tark_os.Graphics.Draw.{color_white}

abbrev pub cursor_width : ℕ
cursor_width = 12

abbrev pub cursor_height : ℕ
cursor_height = 19

-- A digit for each pixel: 1 is white, 2 is black and 0 is transparent.
abbrev pub cursor_data : List ℕ
cursor_data =
    map (λ c. c - 48)
      (codes "200000000000"
        ++ codes "220000000000"
        ++ codes "212000000000"
        ++ codes "211200000000"
        ++ codes "211120000000"
        ++ codes "211112000000"
        ++ codes "211111200000"
        ++ codes "211111120000"
        ++ codes "211111112000"
        ++ codes "211111111200"
        ++ codes "211111111120"
        ++ codes "211111122222"
        ++ codes "211121120000"
        ++ codes "211202112000"
        ++ codes "212002112000"
        ++ codes "220000211200"
        ++ codes "200000211200"
        ++ codes "000000021120"
        ++ codes "000000022200")

-- The static variables for what is under the pointer.
pub record CursorBg : Type 0 where
  pub cursor_bg : List ℕ
  pub cursor_bg_x : ℤ
  pub cursor_bg_y : ℤ

-- The inner loops, at column `px` with `n` to go, and the outer ones.
unfoldable pub save_row : Framebuffer → List ℕ → ℤ → ℤ → ℕ → ℕ → ℕ → List ℕ
unfolding fb_get_pixel
save_row s bg x y py px zero = bg
save_row s bg x y py px (suc n) =
    save_row s (set bg (py * cursor_width + px) (fb_get_pixel s (x +ℤ pos px) (y +ℤ pos py))) x y py
      (px + 1) n

unfoldable pub save_rows : Framebuffer → List ℕ → ℤ → ℤ → ℕ → ℕ → List ℕ
unfolding save_row
save_rows s bg x y py zero = bg
save_rows s bg x y py (suc n) = save_rows s (save_row s bg x y py 0 cursor_width) x y (py + 1) n

unfoldable pub gfx_save_cursor_bg : Framebuffer → CursorBg → ℤ → ℤ → CursorBg
unfolding save_rows
gfx_save_cursor_bg s c x y = record {
  cursor_bg = save_rows s c.cursor_bg x y 0 cursor_height;
  cursor_bg_x = x;
  cursor_bg_y = y;
}

unfoldable pub restore_row : Framebuffer → List ℕ → ℤ → ℤ → ℕ → ℕ → ℕ → Framebuffer
unfolding fb_put_pixel
restore_row s bg x y py px zero = s
restore_row s bg x y py px (suc n) =
    restore_row (fb_put_pixel s (x +ℤ pos px) (y +ℤ pos py) (get_or bg (py * cursor_width + px) 0))
      bg x y py (px + 1) n

unfoldable pub restore_rows : Framebuffer → List ℕ → ℤ → ℤ → ℕ → ℕ → Framebuffer
unfolding restore_row
restore_rows s bg x y py zero = s
restore_rows s bg x y py (suc n) =
    restore_rows (restore_row s bg x y py 0 cursor_width) bg x y (py + 1) n

abbrev pub eq_ℤ : ℤ → ℤ → Bool
eq_ℤ (pos a) (pos b) = a == b
eq_ℤ (pos a) (negsuc b) = false
eq_ℤ (negsuc a) (pos b) = false
eq_ℤ (negsuc a) (negsuc b) = a == b

unfoldable pub gfx_restore_cursor_bg : Framebuffer → CursorBg → ℤ → ℤ → Framebuffer
unfolding restore_rows
gfx_restore_cursor_bg s c x y =
    if eq_ℤ c.cursor_bg_x x && eq_ℤ c.cursor_bg_y y
    then restore_rows s c.cursor_bg x y 0 cursor_height
    else s

-- What a pixel of the pointer draws.
abbrev pub put_cursor_pixel : Framebuffer → ℤ → ℤ → ℕ → Framebuffer
put_cursor_pixel s x y pixel =
    if pixel == 1
    then fb_put_pixel s x y color_white
    else if pixel == 2
    then fb_put_pixel s x y 0
    else s

unfoldable pub cursor_row : Framebuffer → ℤ → ℤ → ℕ → ℕ → ℕ → Framebuffer
unfolding fb_put_pixel
cursor_row s x y py px zero = s
cursor_row s x y py px (suc n) =
    cursor_row
      (put_cursor_pixel s (x +ℤ pos px) (y +ℤ pos py)
        (get_or cursor_data (py * cursor_width + px) 0))
      x y py (px + 1) n

unfoldable pub cursor_rows : Framebuffer → ℤ → ℤ → ℕ → ℕ → Framebuffer
unfolding cursor_row
cursor_rows s x y py zero = s
cursor_rows s x y py (suc n) = cursor_rows (cursor_row s x y py 0 cursor_width) x y (py + 1) n

unfoldable pub gfx_draw_cursor : Framebuffer → ℤ → ℤ → Framebuffer
unfolding cursor_rows
gfx_draw_cursor s x y = cursor_rows s x y 0 cursor_height
