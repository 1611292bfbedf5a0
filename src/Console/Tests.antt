-- ===== src/Console/Tests.antt =====
-- Runs of the text screen.
use tark_os.Prelude.{
  ℕ, ◌*◌, ◌≡◌, refl, arith, if◌then◌else◌, bit_or, [], replicate, length-replicate, codes,
}
use tark_os.Prelude.Int.{pos, negsuc}
use tark_os.Console.{Console, initial_colors, draw_rect, print, entry}
use tark_os.Console.Cells.{cell, is_in_rect, cell-draw_rect}
use tark_os.Console.Text.{IsValid, IsSameBars, print-IsValid}

-- An empty screen with the cursor where the text starts.
abbrev start : Console
start = record {
  vga = replicate 2000 0;
  current_x = 0;
  current_y = 1;
  colors = initial_colors;
  current_col = 0x1F;
  last_time = [];
  cursor = 80;
}

start-IsValid : IsValid start
start-IsValid = record {
  screen = length-replicate {A = ℕ} 2000 0;
  column = omega arith;
  below_header = omega arith;
  above_footer = omega arith;
  shown = omega arith;
}

-- The attribute of a character below 128 is its colour, and that of one from 128 on is 255.
plain_entry : entry 65 0x1F ≡ 0x1F41
unfolding entry
plain_entry = refl

box_entry : entry 205 0x1F ≡ 0xFFCD
unfolding entry
box_entry = refl

cell-draw_rect_example : cell (draw_rect start.vga (negsuc 1) (pos 3) (pos 5) (pos 30) 0x2F) 4 1 ≡ (
    if is_in_rect (negsuc 1) (pos 3) (pos 5) (pos 30) 4 1
    then bit_or 32 (0x2F * 256)
    else cell start.vga 4 1)
cell-draw_rect_example =
    cell-draw_rect start.vga (negsuc 1) (pos 3) (pos 5) (pos 30) 0x2F 4 1
      (length-replicate {A = ℕ} 2000 0) (omega arith) (omega arith) (omega arith) (omega arith)

print-IsValid_example :
    IsValid (print start (codes "TarkOS")) × IsSameBars start (print start (codes "TarkOS"))
print-IsValid_example = print-IsValid start (codes "TarkOS") start-IsValid
