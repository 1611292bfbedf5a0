-- ===== src/Console.antt =====
-- kernel/kernel.c: the text screen. `vga` is the memory of 25 rows of 80 cells, and the other
-- variables are fields of `Console`; `cursor` is the place that `update_cursor` sends to the display
-- controller. A `char` is a byte below 256 here; the compiler's `char` is signed, so that
-- `(uint16_t)c` extends bytes from 128 on.
pub mod Cells
pub mod Text
pub mod Scroll
pub mod Screen
pub mod Window
pub mod WindowLaws
pub mod Pong
pub mod Clock
pub mod Matrix
mod Tests
use tark_os.Prelude.{
  ℕ, zero, suc, ◌+◌, ◌-◌, ◌*◌, ◌/◌, ◌%◌, bit_and, bit_or, Bool, ◌&&◌, ◌||◌, ltb, leb, ◌==◌,
}
use tark_os.Prelude.{if◌then◌else◌, List, [], ◌∷◌, codes, get_or, set}
use tark_os.Prelude.Int.{ℤ, pos, negsuc, ◌+ℤ◌, ◌-ℤ◌, ltb_ℤ, leb_ℤ, pos_part}
use tark_os.Text.{CString, str_eq, newline}

abbrev pub vga_width : ℕ
vga_width = 80

abbrev pub vga_height : ℕ
vga_height = 25

-- The colours of a theme.
pub record Colors : Type 0 where
  pub bg : ℕ
  pub header : ℕ
  pub footer : ℕ
  pub shadow : ℕ
  pub accent : ℕ
  pub success : ℕ
  pub prompt : ℕ

abbrev pub initial_colors : Colors
initial_colors = record {
  bg = 0x1F;
  header = 0x3F;
  footer = 0x3F;
  shadow = 0x08;
  accent = 0x0B;
  success = 0x2F;
  prompt = 0x0A;
}

pub record Console : Type 0 where
  pub vga : List ℕ
  pub current_x : ℕ
  pub current_y : ℕ
  pub colors : Colors
  pub current_col : ℕ
  pub last_time : CString
  pub cursor : ℕ

unfoldable pub set_color : Console → ℕ → ℕ → Console
set_color s fg bg = record s { current_col = bit_or (bg * 16) (bit_and fg 0x0F) % 256 }

-- `(uint16_t)c` of a signed `char`.
abbrev pub char_cell : ℕ → ℕ
char_cell c = if ltb c 128 then c else 0xFF00 + c

unfoldable pub entry : ℕ → ℕ → ℕ
entry c col = bit_or (char_cell c) (col * 256)

-- `if (vga[k] != entry) vga[k] = entry;`
abbrev pub write_cell : List ℕ → ℕ → ℕ → List ℕ
write_cell vga k e = if get_or vga k 0 == e then vga else set vga k e

unfoldable pub put_char_raw : List ℕ → ℕ → ℕ → ℤ → ℤ → List ℕ
unfolding entry
put_char_raw vga c col (pos x) (pos y) =
    if ltb x vga_width && ltb y vga_height
    then write_cell vga (y * vga_width + x) (entry c col)
    else vga
put_char_raw vga c col (pos x) (negsuc y) = vga
put_char_raw vga c col (negsuc x) y = vga

-- The place that `update_cursor` sends for a column and a row.
unfoldable pub update_cursor : Console → ℕ → ℕ → Console
update_cursor s x y = record s {
  cursor =
      (if leb vga_height y then vga_height - 1 else y) * vga_width
      + (if leb vga_width x then vga_width - 1 else x);
}

-- The inner loop of `draw_rect`, at cell `k` with `n` to go.
unfoldable pub draw_row : List ℕ → ℕ → ℕ → ℕ → List ℕ
draw_row vga k e zero = vga
draw_row vga k e (suc n) = draw_row (write_cell vga k e) (k + 1) e n

-- The outer loop, at row `i` with `m` to go.
unfoldable pub draw_rows : ℕ → ℕ → ℕ → ℕ → ℕ → List ℕ → List ℕ
unfolding draw_row
draw_rows x1 n e zero i vga = vga
draw_rows x1 n e (suc m) i vga = draw_rows x1 n e m (i + 1) (draw_row vga (i * vga_width + x1) e n)

abbrev pub clip : ℤ → ℕ → ℤ
clip z high = if ltb_ℤ (pos high) z then pos high else z

unfoldable pub draw_rect : List ℕ → ℤ → ℤ → ℤ → ℤ → ℕ → List ℕ
unfolding draw_rows
draw_rect vga x y w h col =
    let x1 = pos_part x in
    let y1 = pos_part y in
    let x2 = clip (x +ℤ w) vga_width in
    let y2 = clip (y +ℤ h) vga_height in
    if leb_ℤ w (pos 0) || leb_ℤ h (pos 0)
    then vga
    else if leb_ℤ x2 (pos x1) || leb_ℤ y2 (pos y1)
    then vga
    else draw_rows x1 (pos_part x2 - x1) (bit_or 32 (col * 256)) (pos_part y2 - y1) y1 vga

unfoldable pub print_at : List ℕ → ℤ → ℤ → CString → ℕ → List ℕ
unfolding put_char_raw
print_at vga ix y [] col = vga
print_at vga ix y (c ∷ cs) col = print_at (put_char_raw vga c col ix y) (ix +ℤ pos 1) y cs col

-- The copying loop of `scroll`, at cell `i` with `left` to go.
unfoldable pub scroll_from : List ℕ → ℕ → ℕ → List ℕ
scroll_from vga i zero = vga
scroll_from vga i (suc left) = scroll_from (set vga i (get_or vga (i + vga_width) 0)) (i + 1) left

unfoldable pub scroll : Console → Console
unfolding scroll_from draw_rect
scroll s = record s {
  vga =
      draw_rect (scroll_from s.vga vga_width ((vga_height - 1) * vga_width - vga_width)) (pos 0)
        (pos (vga_height - 2)) (pos vga_width) (pos 1) s.colors.bg;
  current_y = vga_height - 2;
}

abbrev pub backspace : ℕ
backspace = 8

-- The three cases of `put_char`.
unfoldable pub place_char : Console → ℕ → Console
unfolding put_char_raw
place_char s c =
    let left = s.current_x - 1 in
    if c == newline
    then record s { current_x = 0; current_y = s.current_y + 1 }
    else if c == backspace
    then record s {
      current_x = left;
      vga = put_char_raw s.vga 32 s.current_col (pos left) (pos s.current_y);
    }
    else record s {
      vga = put_char_raw s.vga c s.current_col (pos s.current_x) (pos s.current_y);
      current_x = s.current_x + 1;
    }

abbrev pub wrap_line : Console → Console
wrap_line s =
    if leb vga_width s.current_x then record s { current_x = 0; current_y = s.current_y + 1 } else s

abbrev pub scroll_if : Console → Console
scroll_if s = if leb (vga_height - 1) s.current_y then scroll s else s

unfoldable pub put_char : Console → ℕ → Console
unfolding place_char scroll update_cursor
put_char s c =
    let t = scroll_if (wrap_line (place_char s c)) in update_cursor t t.current_x t.current_y

unfoldable pub print : Console → CString → Console
unfolding put_char
print s [] = s
print s (c ∷ cs) = print (put_char s c) cs

-- The bars at the top and at the bottom.
unfoldable pub draw_shell_static : Console → Console
unfolding draw_rect print_at
draw_shell_static s =
    let header = s.colors.header in
    let footer = s.colors.footer in
    let top = draw_rect s.vga (pos 0) (pos 0) (pos 80) (pos 1) header in
    let named = print_at top (pos 1) (pos 0) (0xAF ∷ codes " TarkOS Nova") header in
    let cores = print_at named (pos 20) (pos 0) (codes "| SMP: x3 Core") header in
    let memory = print_at cores (pos 38) (pos 0) (codes "| RAM: 512MB") header in
    let bottom = draw_rect memory (pos 0) (pos 24) (pos 80) (pos 1) footer in
    record s {
      vga =
          print_at bottom (pos 2) (pos 24)
            (codes " HELP | LS | CD | MKDIR | DF | WC | ABOUT | SYSINFO | v1.9.6") footer;
    }

-- The clock, for the time that `get_time_str` gives.
unfoldable pub draw_shell_dynamic : Console → CString → Console
unfolding print_at
draw_shell_dynamic s time =
    if str_eq time s.last_time
    then s
    else record s { vga = print_at s.vga (pos 71) (pos 0) time s.colors.header; last_time = time }

unfoldable pub clear_screen : Console → Console
unfolding draw_rect draw_shell_static update_cursor
clear_screen s =
    let blank = draw_rect s.vga (pos 0) (pos 0) (pos 80) (pos 25) s.colors.bg in
    update_cursor
      (record (draw_shell_static (record s { vga = blank })) { current_x = 0; current_y = 1 }) 0 1

-- The colours of `set_theme`; any other number leaves them.
abbrev pub theme_colors : ℕ → Colors → Colors
theme_colors theme old =
    if theme == 0
    then record {
      bg = 0x1F;
      header = 0x3F;
      footer = 0x3F;
      shadow = 0;
      accent = 0x0B;
      success = 0x2F;
      prompt = 0x0A;
    }
    else if theme == 1
    then record {
      bg = 0;
      header = 0x2A;
      footer = 0x2A;
      shadow = 8;
      accent = 0x0E;
      success = 0x0A;
      prompt = 0x0B;
    }
    else if theme == 2
    then record {
      bg = 7;
      header = 0x70;
      footer = 0x70;
      shadow = 0;
      accent = 8;
      success = 0x0F;
      prompt = 0x0C;
    }
    else old

unfoldable pub set_theme : Console → ℕ → Console
unfolding clear_screen
set_theme s theme =
    let colors = theme_colors theme s.colors in
    clear_screen (record s { colors = colors; current_col = colors.bg })
