-- ===== src/Console/Window.antt =====
-- kernel.c: `draw_window`.
use tark_os.Prelude.{ℕ, zero, suc, ◌/◌, bit_and, bit_or, ◌&&◌, ◌==◌, if◌then◌else◌, List, length}
use tark_os.Prelude.Int.{ℤ, pos, negsuc, ◌+ℤ◌, ◌-ℤ◌, ltb_ℤ, pos_part}
use tark_os.Text.{CString}
use tark_os.Console.{Colors, put_char_raw, draw_rect, print_at, vga_width, vga_height}

-- The attribute with the background of `col` and the foreground of `fg`.
abbrev pub over : ℕ → ℕ → ℕ
over col fg = bit_or (bit_and col 0xF0) (bit_and fg 0x0F)

-- Division of an `int` by 2, which rounds towards 0.
abbrev pub half : ℤ → ℤ
half (pos n) = pos (n / 2)
half (negsuc n) = pos 0 -ℤ pos (suc n / 2)

-- The loops over columns: `n` more from `i`, on the rows `y1` and `y2`.
unfoldable pub draw_rules : List ℕ → ℕ → ℕ → ℕ → ℤ → ℤ → ℤ → ℕ → List ℕ
unfolding put_char_raw
draw_rules vga c col1 col2 y1 y2 i zero = vga
draw_rules vga c col1 col2 y1 y2 i (suc n) =
    draw_rules (put_char_raw (put_char_raw vga c col1 i y1) c col2 i y2) c col1 col2 y1 y2
      (i +ℤ pos 1) n

-- The loops over rows, on the columns `x1` and `x2`.
unfoldable pub draw_sides : List ℕ → ℕ → ℕ → ℕ → ℤ → ℤ → ℤ → ℕ → List ℕ
unfolding put_char_raw
draw_sides vga c col1 col2 x1 x2 i zero = vga
draw_sides vga c col1 col2 x1 x2 i (suc n) =
    draw_sides (put_char_raw (put_char_raw vga c col1 x1 i) c col2 x2 i) c col1 col2 x1 x2
      (i +ℤ pos 1) n

unfoldable pub draw_shadow : List ℕ → ℕ → ℤ → ℤ → ℤ → ℤ → List ℕ
unfolding draw_rect put_char_raw
draw_shadow vga col_shadow x y w h =
    let sx = x +ℤ w in
    let sy = y +ℤ h in
    let right = ltb_ℤ sx (pos vga_width) in
    let below = ltb_ℤ sy (pos vga_height) in
    let sw = if ltb_ℤ (sx +ℤ pos 1) (pos vga_width) then pos 2 else pos 1 in
    let sh = if ltb_ℤ (sy +ℤ pos 1) (pos vga_height) then pos 2 else pos 1 in
    let side = if right then draw_rect vga sx (y +ℤ pos 1) sw h col_shadow else vga in
    let both = if below then draw_rect side (x +ℤ pos 1) sy w sh col_shadow else side in
    if right && below then put_char_raw both 32 col_shadow sx sy else both

-- The frame within the border of a window that is large enough.
unfoldable pub draw_frame : List ℕ → ℕ → ℕ → ℤ → ℤ → ℤ → ℤ → List ℕ
unfolding draw_rules draw_sides put_char_raw
draw_frame vga light dark x y w h =
    let left = x +ℤ pos 1 in
    let right = x +ℤ w -ℤ pos 2 in
    let top = y +ℤ pos 1 in
    let bottom = y +ℤ h -ℤ pos 2 in
    let rules = draw_rules vga 196 light dark top bottom left (pos_part (w -ℤ pos 2)) in
    let sides = draw_sides rules 179 light dark left right top (pos_part (h -ℤ pos 2)) in
    let corner1 = put_char_raw sides 218 light left top in
    let corner2 = put_char_raw corner1 191 light right top in
    let corner3 = put_char_raw corner2 192 dark left bottom in
    put_char_raw corner3 217 dark right bottom

unfoldable pub draw_border : List ℕ → ℕ → ℤ → ℤ → ℤ → ℤ → List ℕ
unfolding draw_rules draw_sides put_char_raw
draw_border vga col x y w h =
    let right = x +ℤ w -ℤ pos 1 in
    let bottom = y +ℤ h -ℤ pos 1 in
    let rules = draw_rules vga 205 col col y bottom x (pos_part w) in
    let sides = draw_sides rules 186 col col x right y (pos_part h) in
    let corner1 = put_char_raw sides 201 col x y in
    let corner2 = put_char_raw corner1 187 col right y in
    let corner3 = put_char_raw corner2 200 col x bottom in put_char_raw corner3 188 col right bottom

unfoldable pub draw_window : List ℕ → Colors → ℤ → ℤ → ℤ → ℤ → CString → ℕ → List ℕ
unfolding draw_shadow draw_rect draw_frame draw_border print_at
draw_window vga colors x y w h title col =
    let light = over col colors.accent in
    let dark = over col (if colors.shadow == 0 then col else colors.shadow) in
    let shaded = if colors.shadow == 0 then vga else draw_shadow vga colors.shadow x y w h in
    let body = draw_rect shaded x y w h col in
    let inner =
      if ltb_ℤ (pos 2) w && ltb_ℤ (pos 2) h
      then draw_rect body (x +ℤ pos 1) (y +ℤ pos 1) (w -ℤ pos 2) (h -ℤ pos 2) col
      else body in
    let bar =
      if ltb_ℤ (pos 4) w
      then draw_rect inner (x +ℤ pos 2) (y +ℤ pos 1) (w -ℤ pos 4) (pos 1) light
      else inner in
    let framed =
      if ltb_ℤ (pos 4) w && ltb_ℤ (pos 4) h then draw_frame bar light dark x y w h else bar in
    print_at (draw_border framed col x y w h) (x +ℤ half (w -ℤ pos (length title))) y title
      (bit_or (bit_and col 0xF0) 0x0F)
