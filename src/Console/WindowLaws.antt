-- ===== src/Console/WindowLaws.antt =====
-- kernel.c: drawing a window keeps the size of the screen.
use tark_os.Prelude.{
  ℕ, zero, suc, ◌≡◌, refl, ◌∙◌, Bool, true, false, ◌&&◌, ◌==◌, if◌then◌else◌, if_intro, List,
  length, bit_and, bit_or,
}
use tark_os.Prelude.Int.{ℤ, pos, ◌+ℤ◌, ◌-ℤ◌, ltb_ℤ, pos_part}
use tark_os.Text.{CString}
use tark_os.Console.{Colors, put_char_raw, draw_rect, vga_width, vga_height}
use tark_os.Console.Cells.{length-put_char_raw, length-draw_rect, length-print_at}
use tark_os.Console.Window.{
  draw_rules, draw_sides, draw_shadow, draw_frame, draw_border, draw_window, over, half,
}

length-draw_rules :
    (vga : List ℕ) (c col1 col2 : ℕ) (y1 y2 i : ℤ) (n : ℕ)
    → length (draw_rules vga c col1 col2 y1 y2 i n) ≡ length vga
unfolding draw_rules
length-draw_rules vga c col1 col2 y1 y2 i zero = refl
length-draw_rules vga c col1 col2 y1 y2 i (suc n) =
    length-draw_rules (put_char_raw (put_char_raw vga c col1 i y1) c col2 i y2) c col1 col2 y1 y2
      (i +ℤ pos 1) n
    ∙ length-put_char_raw (put_char_raw vga c col1 i y1) c col2 i y2
    ∙ length-put_char_raw vga c col1 i y1

length-draw_sides :
    (vga : List ℕ) (c col1 col2 : ℕ) (x1 x2 i : ℤ) (n : ℕ)
    → length (draw_sides vga c col1 col2 x1 x2 i n) ≡ length vga
unfolding draw_sides
length-draw_sides vga c col1 col2 x1 x2 i zero = refl
length-draw_sides vga c col1 col2 x1 x2 i (suc n) =
    length-draw_sides (put_char_raw (put_char_raw vga c col1 x1 i) c col2 x2 i) c col1 col2 x1 x2
      (i +ℤ pos 1) n
    ∙ length-put_char_raw (put_char_raw vga c col1 x1 i) c col2 x2 i
    ∙ length-put_char_raw vga c col1 x1 i

length-draw_frame :
    (vga : List ℕ) (light dark : ℕ) (x y w h : ℤ)
    → length (draw_frame vga light dark x y w h) ≡ length vga
unfolding draw_frame
length-draw_frame vga light dark x y w h =
    let left = x +ℤ pos 1 in
    let right = x +ℤ w -ℤ pos 2 in
    let top = y +ℤ pos 1 in
    let bottom = y +ℤ h -ℤ pos 2 in
    let rules = draw_rules vga 196 light dark top bottom left (pos_part (w -ℤ pos 2)) in
    let sides = draw_sides rules 179 light dark left right top (pos_part (h -ℤ pos 2)) in
    let corner1 = put_char_raw sides 218 light left top in
    let corner2 = put_char_raw corner1 191 light right top in
    let corner3 = put_char_raw corner2 192 dark left bottom in
    length-put_char_raw corner3 217 dark right bottom
    ∙ length-put_char_raw corner2 192 dark left bottom
    ∙ length-put_char_raw corner1 191 light right top
    ∙ length-put_char_raw sides 218 light left top
    ∙ length-draw_sides rules 179 light dark left right top (pos_part (h -ℤ pos 2))
    ∙ length-draw_rules vga 196 light dark top bottom left (pos_part (w -ℤ pos 2))

length-draw_border :
    (vga : List ℕ) (col : ℕ) (x y w h : ℤ) → length (draw_border vga col x y w h) ≡ length vga
unfolding draw_border
length-draw_border vga col x y w h =
    let right = x +ℤ w -ℤ pos 1 in
    let bottom = y +ℤ h -ℤ pos 1 in
    let rules = draw_rules vga 205 col col y bottom x (pos_part w) in
    let sides = draw_sides rules 186 col col x right y (pos_part h) in
    let corner1 = put_char_raw sides 201 col x y in
    let corner2 = put_char_raw corner1 187 col right y in
    let corner3 = put_char_raw corner2 200 col x bottom in
    length-put_char_raw corner3 188 col right bottom
    ∙ length-put_char_raw corner2 200 col x bottom
    ∙ length-put_char_raw corner1 187 col right y
    ∙ length-put_char_raw sides 201 col x y
    ∙ length-draw_sides rules 186 col col x right y (pos_part h)
    ∙ length-draw_rules vga 205 col col y bottom x (pos_part w)

-- A step that is taken or not keeps the size, if taking it does.
length-if : (b : Bool) (u v : List ℕ) → length u ≡ length v → length (if b then u else v) ≡ length v
length-if true u v h = h
length-if false u v h = refl

length-draw_shadow :
    (vga : List ℕ) (col : ℕ) (x y w h : ℤ) → length (draw_shadow vga col x y w h) ≡ length vga
unfolding draw_shadow
length-draw_shadow vga col x y w h =
    let sx = x +ℤ w in
    let sy = y +ℤ h in
    let right = ltb_ℤ sx (pos vga_width) in
    let below = ltb_ℤ sy (pos vga_height) in
    let sw = if ltb_ℤ (sx +ℤ pos 1) (pos vga_width) then pos 2 else pos 1 in
    let sh = if ltb_ℤ (sy +ℤ pos 1) (pos vga_height) then pos 2 else pos 1 in
    let side = if right then draw_rect vga sx (y +ℤ pos 1) sw h col else vga in
    let both = if below then draw_rect side (x +ℤ pos 1) sy w sh col else side in
    length-if (right && below) (put_char_raw both 32 col sx sy) both
      (length-put_char_raw both 32 col sx sy)
    ∙ length-if below (draw_rect side (x +ℤ pos 1) sy w sh col) side
        (length-draw_rect side (x +ℤ pos 1) sy w sh col)
    ∙ length-if right (draw_rect vga sx (y +ℤ pos 1) sw h col) vga
        (length-draw_rect vga sx (y +ℤ pos 1) sw h col)

pub length-draw_window :
    (vga : List ℕ) (colors : Colors) (x y w h : ℤ) (title : CString) (col : ℕ)
    → length (draw_window vga colors x y w h title col) ≡ length vga
unfolding draw_window
length-draw_window vga colors x y w h title col =
    let light = over col colors.accent in
    let dark = over col (if colors.shadow == 0 then col else colors.shadow) in
    let shaded = if colors.shadow == 0 then vga else draw_shadow vga colors.shadow x y w h in
    let body = draw_rect shaded x y w h col in
    let filled = draw_rect body (x +ℤ pos 1) (y +ℤ pos 1) (w -ℤ pos 2) (h -ℤ pos 2) col in
    let inner = if ltb_ℤ (pos 2) w && ltb_ℤ (pos 2) h then filled else body in
    let lit = draw_rect inner (x +ℤ pos 2) (y +ℤ pos 1) (w -ℤ pos 4) (pos 1) light in
    let bar = if ltb_ℤ (pos 4) w then lit else inner in
    let frame = draw_frame bar light dark x y w h in
    let framed = if ltb_ℤ (pos 4) w && ltb_ℤ (pos 4) h then frame else bar in
    length-print_at (draw_border framed col x y w h) (x +ℤ half (w -ℤ pos (length title))) y title
      (bit_or (bit_and col 0xF0) 0x0F)
    ∙ length-draw_border framed col x y w h
    ∙ length-if (ltb_ℤ (pos 4) w && ltb_ℤ (pos 4) h) frame bar
        (length-draw_frame bar light dark x y w h)
    ∙ length-if (ltb_ℤ (pos 4) w) lit inner
        (length-draw_rect inner (x +ℤ pos 2) (y +ℤ pos 1) (w -ℤ pos 4) (pos 1) light)
    ∙ length-if (ltb_ℤ (pos 2) w && ltb_ℤ (pos 2) h) filled body
        (length-draw_rect body (x +ℤ pos 1) (y +ℤ pos 1) (w -ℤ pos 2) (h -ℤ pos 2) col)
    ∙ length-draw_rect shaded x y w h col
    ∙ if_intro (λ (v : List ℕ). length v ≡ length vga) (colors.shadow == 0) _ _ (λ e. refl)
        (λ e. length-draw_shadow vga colors.shadow x y w h)
