-- ===== src/Console/Screen.antt =====
-- kernel.c: what sets colours or clears the screen keeps it in order.
use tark_os.Prelude.{ℕ, ◌∙◌, arith}
use tark_os.Prelude.{List, [], ◌∷◌, codes}
use tark_os.Prelude.Int.{pos}
use tark_os.Text.{CString}
use tark_os.Console.{
  Console, set_color, print, print_at, draw_rect, draw_shell_static, clear_screen, set_theme,
  update_cursor, theme_colors,
}
use tark_os.Console.Cells.{IsScreen, length-print_at, length-draw_rect}
use tark_os.Console.Text.{IsValid, print-IsValid}

pub set_color-IsValid : (s : Console) (fg bg : ℕ) → IsValid s → IsValid (set_color s fg bg)
unfolding set_color
set_color-IsValid s fg bg v = record {
  screen = v.screen;
  column = v.column;
  below_header = v.below_header;
  above_footer = v.above_footer;
  shown = v.shown;
}

-- Calls of `print`, one after another.
unfoldable pub print_all : Console → List CString → Console
unfolding print
print_all s [] = s
print_all s (text ∷ texts) = print_all (print s text) texts

pub print_all-IsValid :
    (s : Console) (texts : List CString) → IsValid s → IsValid (print_all s texts)
unfolding print_all
print_all-IsValid s [] v = v
print_all-IsValid s (text ∷ texts) v =
    print_all-IsValid (print s text) texts (print-IsValid s text v).0

-- A screen keeps its size.
draw_shell_static-IsScreen : (s : Console) → IsScreen s.vga → IsScreen (draw_shell_static s).vga
unfolding draw_shell_static
draw_shell_static-IsScreen s h =
    let header = s.colors.header in
    let footer = s.colors.footer in
    let top = draw_rect s.vga (pos 0) (pos 0) (pos 80) (pos 1) header in
    let name = 0xAF ∷ codes " TarkOS Nova" in
    let named = print_at top (pos 1) (pos 0) name header in
    let cores = print_at named (pos 20) (pos 0) (codes "| SMP: x3 Core") header in
    let memory = print_at cores (pos 38) (pos 0) (codes "| RAM: 512MB") header in
    let bottom = draw_rect memory (pos 0) (pos 24) (pos 80) (pos 1) footer in
    length-print_at bottom (pos 2) (pos 24)
      (codes " HELP | LS | CD | MKDIR | DF | WC | ABOUT | SYSINFO | v1.9.6") footer
    ∙ length-draw_rect memory (pos 0) (pos 24) (pos 80) (pos 1) footer
    ∙ length-print_at cores (pos 38) (pos 0) (codes "| RAM: 512MB") header
    ∙ length-print_at named (pos 20) (pos 0) (codes "| SMP: x3 Core") header
    ∙ length-print_at top (pos 1) (pos 0) name header
    ∙ length-draw_rect s.vga (pos 0) (pos 0) (pos 80) (pos 1) header
    ∙ h

-- Clearing needs a screen of the right size only.
pub clear_screen-IsValid : (s : Console) → IsScreen s.vga → IsValid (clear_screen s)
unfolding clear_screen update_cursor
clear_screen-IsValid s h = record {
  screen =
      draw_shell_static-IsScreen
        (record s { vga = draw_rect s.vga (pos 0) (pos 0) (pos 80) (pos 25) s.colors.bg })
        (length-draw_rect s.vga (pos 0) (pos 0) (pos 80) (pos 25) s.colors.bg ∙ h);
  column = omega arith;
  below_header = omega arith;
  above_footer = omega arith;
  shown = omega arith;
}

pub set_theme-IsValid : (s : Console) (theme : ℕ) → IsValid s → IsValid (set_theme s theme)
unfolding set_theme
set_theme-IsValid s theme v =
    clear_screen-IsValid
      (record s {
        colors = theme_colors theme s.colors;
        current_col = (theme_colors theme s.colors).bg;
      })
      v.screen
