-- ===== src/Console/Scroll.antt =====
-- kernel.c: what `scroll` leaves on the screen.
use tark_os.Prelude.{ℕ, zero, suc, ◌+◌, ◌-◌, ◌*◌, ◌≤◌, ◌<◌, ◌≡◌, refl, ◌∙◌, ap, arith}
use tark_os.Prelude.{
  bit_or, ◌&&◌, ltb, leb, ◌==◌, if◌then◌else◌, List, length, length-set, get_or, set,
}
use tark_os.Prelude.Int.{pos, ◌+ℤ◌}
use tark_os.Prelude.Grid.{get_or-set}
use tark_os.Console.{Console, vga_width, vga_height, scroll_from, scroll}
use tark_os.Console.Cells.{cell, IsScreen, cell-draw_rect, is_in_rect}

pub length-scroll_from : (vga : List ℕ) (i n : ℕ) → length (scroll_from vga i n) ≡ length vga
unfolding scroll_from
length-scroll_from vga i zero = refl
length-scroll_from vga i (suc n) =
    length-scroll_from (set vga i (get_or vga (i + vga_width) 0)) (i + 1) n
    ∙ length-set vga i (get_or vga (i + vga_width) 0)

-- The loop moves `n` cells up by a row: it reads each before it writes there.
get_or-scroll_from :
    (vga : List ℕ) (i n j : ℕ)
    → i + n ≤ length vga
    → get_or (scroll_from vga i n) j 0
      ≡ (if leb i j && ltb j (i + n) then get_or vga (j + vga_width) 0 else get_or vga j 0)
unfolding scroll_from
get_or-scroll_from vga i zero j h = ground arith
get_or-scroll_from vga i (suc n) j h =
    let v = get_or vga (i + vga_width) 0 in
    get_or-scroll_from (set vga i v) (i + 1) n j (omega (arith, length-set vga i v))
    ∙ ground (
      arith,
      get_or-set vga i v j (omega arith),
      get_or-set vga i v (j + vga_width) (omega arith),
      λ (e : i ≡ j). ap (λ k. get_or vga (k + vga_width) 0) e,
    )

-- The cell in row `row` of a screen after `scroll`.
abbrev pub scrolled : Console → ℕ → ℕ → ℕ
scrolled s row col =
    if row == 0
    then cell s.vga 0 col
    else if ltb row (vga_height - 2)
    then cell s.vga (row + 1) col
    else if row == vga_height - 2
    then bit_or 32 (s.colors.bg * 256)
    else cell s.vga row col

combine :
    (s : Console) (row col : ℕ)
    → row < vga_height
    → col < vga_width
    → (if is_in_rect (pos 0) (pos 23) (pos 80) (pos 1) row col
        then bit_or 32 (s.colors.bg * 256)
        else if leb vga_width (row * vga_width + col)
            && ltb (row * vga_width + col) (vga_width + 1840)
        then get_or s.vga (row * vga_width + col + vga_width) 0
        else cell s.vga row col)
      ≡ scrolled s row col
unfolding ◌+ℤ◌
combine s row col h k =
    let next_row : row * vga_width + col + vga_width ≡ (row + 1) * vga_width + col = omega arith in
    let cleared : is_in_rect (pos 0) (pos 23) (pos 80) (pos 1) row col ≡ (row == 23) =
      ground arith in
    let moved : (leb vga_width (row * vga_width + col)
          && ltb (row * vga_width + col) (vga_width + 1840))
        ≡ (ltb 0 row && ltb row 24) =
      ground arith in
    rw (next_row, cleared, moved) (ground (arith, λ (e : row ≡ 0). ap (λ r. cell s.vga r col) e))

-- `scroll` moves the rows between the bars up by one and clears the last of them; the bars stay.
pub cell-scroll :
    (s : Console) (row col : ℕ)
    → IsScreen s.vga
    → row < vga_height
    → col < vga_width
    → cell (scroll s).vga row col ≡ scrolled s row col
unfolding scroll
cell-scroll s row col screen h k =
    let copied = scroll_from s.vga vga_width 1840 in
    cell-draw_rect copied (pos 0) (pos 23) (pos 80) (pos 1) s.colors.bg row col
      (length-scroll_from s.vga vga_width 1840 ∙ screen) (omega arith) (omega arith) h k
    ∙ rw (get_or-scroll_from s.vga vga_width 1840 (row * vga_width + col) (omega (arith, screen)))
        (combine s row col h k)
