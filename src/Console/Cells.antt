-- ===== src/Console/Cells.antt =====
-- kernel.c: the cells that `put_char_raw` and `draw_rect` write.
use tark_os.Prelude.{
  ℕ, zero, suc, ◌+◌, ◌-◌, ◌*◌, ◌≤◌, ◌<◌, ◌≡◌, refl, sym, ◌∙◌, ap, arith, inl, inr,
}
use tark_os.Prelude.{
  bit_or, Bool, true, false, ◌&&◌, ◌||◌, ltb, leb, ◌==◌, if◌then◌else◌, Bool-cases, ==→eq,
}
use tark_os.Prelude.{List, [], ◌∷◌, length, length-set, get_or, set}
use tark_os.Prelude.Int.{ℤ, pos, negsuc, ◌+ℤ◌, ◌<ℤ◌, ltb_ℤ, leb_ℤ, pos_part}
use tark_os.Prelude.Grid.{span, block, length-span, get_or-set, get_or-block}
use tark_os.Text.{CString}
use tark_os.Console.{
  vga_width, vga_height, entry, write_cell, put_char_raw, draw_row, draw_rows, draw_rect, clip,
  print_at,
}

abbrev pub cell : List ℕ → ℕ → ℕ → ℕ
cell vga row col = get_or vga (row * vga_width + col) 0

-- The memory has a cell for each place of the screen.
abbrev pub IsScreen : List ℕ → Type 0
IsScreen vga = length vga ≡ vga_height * vga_width

set_same : (buf : List ℕ) (k e : ℕ) → get_or buf k 0 ≡ e → k < length buf → set buf k e ≡ buf
set_same [] k e h l = refl
set_same (x ∷ buf) zero e h l = ap (λ y. y ∷ buf) (sym h)
set_same (x ∷ buf) (suc k) e h l = ap (◌∷◌ x) (set_same buf k e h (omega arith))

write_cell_lem : (vga : List ℕ) (k e : ℕ) → k < length vga → write_cell vga k e ≡ set vga k e
write_cell_lem vga k e l = elim (Bool-cases (get_or vga k 0 == e)) [
  | inr other ↦ rw other refl
  | inl same ↦ rw same (sym (set_same vga k e (==→eq (get_or vga k 0) e same) l))
]

-- Skipping the cells that are right already makes no difference.
draw_row-span :
    (vga : List ℕ) (k e n : ℕ) → k + n ≤ length vga → draw_row vga k e n ≡ span vga k e n
unfolding draw_row span
draw_row-span vga k e zero h = refl
draw_row-span vga k e (suc n) h =
    ap (λ b. draw_row b (k + 1) e n) (write_cell_lem vga k e (omega arith))
    ∙ draw_row-span (set vga k e) (k + 1) e n (omega (arith, length-set vga k e))

draw_rows-block :
    (x1 n e m i : ℕ) (vga : List ℕ)
    → x1 + n ≤ vga_width
    → (i + m) * vga_width ≤ length vga
    → draw_rows x1 n e m i vga ≡ block vga_width x1 n e m i vga
unfolding draw_rows block
draw_rows-block x1 n e zero i vga fits h = refl
draw_rows-block x1 n e (suc m) i vga fits h =
    ap (draw_rows x1 n e m (i + 1)) (draw_row-span vga (i * vga_width + x1) e n (omega arith))
    ∙ draw_rows-block x1 n e m (i + 1) (span vga (i * vga_width + x1) e n) fits
        (omega (arith, length-span vga (i * vga_width + x1) e n))

-- The place in row `row` and column `col` is in the rectangle.
abbrev pub is_in_rect : ℤ → ℤ → ℤ → ℤ → ℕ → ℕ → Bool
is_in_rect x y w h row col =
    (leb_ℤ y (pos row) && ltb_ℤ (pos row) (y +ℤ h))
    && (leb_ℤ x (pos col) && ltb_ℤ (pos col) (x +ℤ w))

-- The columns, or rows, that are drawn are those between the ends that are on the screen.
pub clipped :
    (x z : ℤ) (high c : ℕ)
    → c < high
    → leb_ℤ (clip z high) (pos (pos_part x)) ≡ false
    → (leb (pos_part x) c && ltb c (pos_part x + (pos_part (clip z high) - pos_part x)))
      ≡ (leb_ℤ x (pos c) && ltb_ℤ (pos c) z)
clipped (pos x) (pos z) high c l some_left = ground arith
clipped (pos x) (negsuc z) high c l some_left = ground arith
clipped (negsuc x) (pos z) high c l some_left = ground arith
clipped (negsuc x) (negsuc z) high c l some_left = ground arith

-- With nothing left between the ends, no place of the screen is between them.
pub outside :
    (x z : ℤ) (high c : ℕ)
    → c < high
    → leb_ℤ (clip z high) (pos (pos_part x)) ≡ true
    → (leb_ℤ x (pos c) && ltb_ℤ (pos c) z) ≡ false
outside (pos x) (pos z) high c l none_left = ground arith
outside (pos x) (negsuc z) high c l none_left = ground arith
outside (negsuc x) (pos z) high c l none_left = ground arith
outside (negsuc x) (negsuc z) high c l none_left = ground arith

pub clip_fits :
    (x z : ℤ) (high : ℕ)
    → leb_ℤ (clip z high) (pos (pos_part x)) ≡ false
    → pos_part x + (pos_part (clip z high) - pos_part x) ≤ high
clip_fits x (pos z) high some_left = ground arith
clip_fits x (negsuc z) high some_left = ground arith

positive : (w : ℤ) → pos 0 <ℤ w → leb_ℤ w (pos 0) ≡ false
positive w h = ground arith

pub and_false : (b : Bool) → (b && false) ≡ false
and_false true = refl
and_false false = refl

pub or_true : (b : Bool) → (b || true) ≡ true
or_true true = refl
or_true false = refl

-- On a screen, `draw_rect` of a width and a height above 0 gives the places of the screen in the
-- rectangle a blank of the colour, and leaves every other place as it is.
pub cell-draw_rect :
    (vga : List ℕ) (x y w h : ℤ) (col row c : ℕ)
    → IsScreen vga
    → pos 0 <ℤ w
    → pos 0 <ℤ h
    → row < vga_height
    → c < vga_width
    → cell (draw_rect vga x y w h col) row c
      ≡ (if is_in_rect x y w h row c then bit_or 32 (col * 256) else cell vga row c)
unfolding draw_rect
cell-draw_rect vga x y w h col row c screen wide tall inside inside' =
    let x2 = x +ℤ w in
    let y2 = y +ℤ h in
    elim (Bool-cases (leb_ℤ (clip y2 vga_height) (pos (pos_part y)))) [
      | inl none_left ↦
          rw (outside y y2 vga_height row inside none_left)
            (rw (positive w wide, positive h tall, none_left, or_true) refl)
      | inr rows ↦ elim (Bool-cases (leb_ℤ (clip x2 vga_width) (pos (pos_part x)))) [
        | inl none_left ↦
            rw (outside x x2 vga_width c inside' none_left, and_false)
              (rw (positive w wide, positive h tall, none_left) refl)
        | inr cols ↦
            rw (positive w wide, positive h tall, rows, cols)
              (let n = pos_part (clip x2 vga_width) - pos_part x in
                let m = pos_part (clip y2 vga_height) - pos_part y in
                let fits = clip_fits x x2 vga_width cols in
                let rows_fit : (pos_part y + m) * vga_width ≤ length vga =
                  omega (arith, clip_fits y y2 vga_height rows, screen) in
                ap (λ b. cell b row c)
                  (draw_rows-block (pos_part x) n (bit_or 32 (col * 256)) m (pos_part y) vga fits
                    rows_fit)
                ∙ get_or-block vga_width (pos_part x) n (bit_or 32 (col * 256)) m (pos_part y) vga
                    row c inside' fits rows_fit
                ∙ rw
                    (clipped x x2 vga_width c inside' cols, clipped y y2 vga_height row inside rows)
                    refl)
      ]
    ]

length-write_cell : (vga : List ℕ) (k e : ℕ) → length (write_cell vga k e) ≡ length vga
length-write_cell vga k e = elim (Bool-cases (get_or vga k 0 == e)) [
  | inl same ↦ rw same refl
  | inr other ↦ rw other (length-set vga k e)
]

pub length-put_char_raw :
    (vga : List ℕ) (c col : ℕ) (x y : ℤ) → length (put_char_raw vga c col x y) ≡ length vga
unfolding put_char_raw
length-put_char_raw vga c col (pos x) (pos y) =
    elim (Bool-cases (ltb x vga_width && ltb y vga_height)) [
      | inl inside ↦ rw inside (length-write_cell vga (y * vga_width + x) (entry c col))
      | inr off ↦ rw off refl
    ]
length-put_char_raw vga c col (pos x) (negsuc y) = refl
length-put_char_raw vga c col (negsuc x) y = refl

length-draw_row : (vga : List ℕ) (k e n : ℕ) → length (draw_row vga k e n) ≡ length vga
unfolding draw_row
length-draw_row vga k e zero = refl
length-draw_row vga k e (suc n) =
    length-draw_row (write_cell vga k e) (k + 1) e n ∙ length-write_cell vga k e

length-draw_rows : (x1 n e m i : ℕ) (vga : List ℕ) → length (draw_rows x1 n e m i vga) ≡ length vga
unfolding draw_rows
length-draw_rows x1 n e zero i vga = refl
length-draw_rows x1 n e (suc m) i vga =
    length-draw_rows x1 n e m (i + 1) (draw_row vga (i * vga_width + x1) e n)
    ∙ length-draw_row vga (i * vga_width + x1) e n

pub length-draw_rect :
    (vga : List ℕ) (x y w h : ℤ) (col : ℕ) → length (draw_rect vga x y w h col) ≡ length vga
unfolding draw_rect
length-draw_rect vga x y w h col = elim (Bool-cases (leb_ℤ w (pos 0) || leb_ℤ h (pos 0))) [
  | inl e ↦ rw e refl
  | inr e ↦
      elim (Bool-cases (
        leb_ℤ (clip (x +ℤ w) vga_width) (pos (pos_part x))
        || leb_ℤ (clip (y +ℤ h) vga_height) (pos (pos_part y)))) [
          | inl none_left ↦ rw (e, none_left) refl
          | inr some_left ↦
              rw (e, some_left)
                (length-draw_rows (pos_part x) (pos_part (clip (x +ℤ w) vga_width) - pos_part x)
                  (bit_or 32 (col * 256)) (pos_part (clip (y +ℤ h) vga_height) - pos_part y)
                  (pos_part y) vga)
        ]
]

-- A character on the screen is written to its own cell only.
pub cell-put_char_raw :
    (vga : List ℕ) (c col x y row k : ℕ)
    → IsScreen vga
    → x < vga_width
    → y < vga_height
    → k < vga_width
    → cell (put_char_raw vga c col (pos x) (pos y)) row k
      ≡ (if y == row && x == k then entry c col else cell vga row k)
unfolding put_char_raw
cell-put_char_raw vga c col x y row k screen hx hy hk =
    let inside : (ltb x vga_width && ltb y vga_height) ≡ true = ground arith in
    let at : y * vga_width + x < length vga = omega (arith, screen) in
    rw inside (
      ap (λ b. cell b row k) (write_cell_lem vga (y * vga_width + x) (entry c col) at)
      ∙ get_or-set vga (y * vga_width + x) (entry c col) (row * vga_width + k) at
      ∙ rw same_place refl)
  where
    same_place : (y * vga_width + x == row * vga_width + k) ≡ (y == row && x == k)
    same_place = ground arith

pub length-print_at :
    (vga : List ℕ) (x y : ℤ) (s : CString) (col : ℕ) → length (print_at vga x y s col) ≡ length vga
unfolding print_at
length-print_at vga x y [] col = refl
length-print_at vga x y (c ∷ s) col =
    length-print_at (put_char_raw vga c col x y) (x +ℤ pos 1) y s col
    ∙ length-put_char_raw vga c col x y
