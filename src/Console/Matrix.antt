-- ===== src/Console/Matrix.antt =====
-- kernel.c: `effect_matrix`, the drops that fall down the columns of the screen.
use tark_os.Prelude.{
  ℕ, zero, suc, ◌+◌, ◌-◌, ◌%◌, ◌<◌, ltb, leb, ◌&&◌, if◌then◌else◌, arith, List, [], ◌∷◌,
}
use tark_os.Prelude.Int.{pos, ◌-ℤ◌}
use tark_os.Console.{put_char_raw, vga_height}

-- `(uint8_t)(-(i % 20))` for column `i`, with `n` columns to go.
unfoldable pub first_drops : ℕ → ℕ → List ℕ
first_drops i zero = []
first_drops i (suc n) = (256 - i % 20) % 256 ∷ first_drops (i + 1) n

-- What a round draws of a drop in column `x`.
unfoldable pub draw_drop : List ℕ → ℕ → ℕ → ℕ → ℕ → List ℕ
unfolding put_char_raw
draw_drop vga bg matrix x drop =
    let glyph = 33 + drop % 94 in
    let falling =
      if ltb drop vga_height then put_char_raw vga glyph matrix (pos x) (pos drop) else vga in
    let bright =
      if ltb drop vga_height && ltb 0 drop
      then put_char_raw falling glyph 0x0A (pos x) (pos drop -ℤ pos 1)
      else falling in
    if leb 1 drop && leb drop vga_height
    then put_char_raw bright 32 bg (pos x) (pos drop -ℤ pos 2)
    else bright

abbrev pub next_drop : ℕ → ℕ
next_drop drop = let down = (drop + 1) % 256 in if leb (vga_height + 2) down then 0 else down

-- The loop over the columns, from column `x` on.
unfoldable pub matrix_columns : List ℕ → ℕ → ℕ → ℕ → List ℕ → List ℕ × List ℕ
unfolding draw_drop
matrix_columns vga bg matrix x [] = (vga, [])
matrix_columns vga bg matrix x (drop ∷ drops) =
    let (vga', drops') = matrix_columns (draw_drop vga bg matrix x drop) bg matrix (x + 1) drops in
    (vga', next_drop drop ∷ drops')

-- A drop is on the screen's rows, or at most two below them, after its first round.
pub next_drop-lt : (drop : ℕ) → next_drop drop < vga_height + 2
next_drop-lt drop = ground arith
