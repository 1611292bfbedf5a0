-- ===== src/Console/Text.antt =====
-- kernel.c: printing keeps the cursor in the text area, and never touches the bars.
use tark_os.Prelude.{ℕ, ◌-◌, ◌*◌, ◌≤◌, ◌<◌, ◌≡◌, refl, ◌∙◌, arith, inl, inr}
use tark_os.Prelude.{leb, ◌==◌, Bool-cases, [], ◌∷◌, length}
use tark_os.Prelude.Int.{pos}
use tark_os.Text.{CString, newline}
use tark_os.Console.{
  Console, vga_width, vga_height, put_char_raw, update_cursor, scroll, place_char, wrap_line,
  scroll_if, put_char, print, backspace,
}
use tark_os.Console.Cells.{cell, IsScreen, length-put_char_raw, cell-put_char_raw, length-draw_rect}
use tark_os.Console.Scroll.{length-scroll_from, cell-scroll}

-- The text goes between the bars, and the display's cursor is on the screen.
pub record IsValid (s : Console) : Type 0 where
  pub screen : IsScreen s.vga
  pub column : s.current_x < vga_width
  pub below_header : 1 ≤ s.current_y
  pub above_footer : s.current_y < vga_height - 1
  pub shown : s.cursor < vga_height * vga_width

-- The rows of the header and of the footer are as they were.
abbrev pub IsSameBars : Console → Console → Type 0
IsSameBars s t =
    (col : ℕ)
    → col < vga_width
    → (cell t.vga 0 col ≡ cell s.vga 0 col) × (cell t.vga 24 col ≡ cell s.vga 24 col)

-- Where the text stands while a character is placed.
record IsPlaced (s t : Console) : Type 0 where
  screen : IsScreen t.vga
  full_line : vga_width ≤ t.current_x → t.current_y < vga_height - 1
  below_header : 1 ≤ t.current_y
  above_end : t.current_y < vga_height
  bars : IsSameBars s t

place_char-IsPlaced : (s : Console) (c : ℕ) → IsValid s → IsPlaced s (place_char s c)
unfolding place_char
place_char-IsPlaced s c v = elim (Bool-cases (c == newline)) [
  | inl e ↦ rw e record {
    screen = v.screen;
    full_line = λ h. absurd (omega arith);
    below_header = omega arith;
    above_end = omega (arith, v.above_footer);
    bars = λ col h. (refl, refl);
  }
  | inr e ↦ elim (Bool-cases (c == backspace)) [
    | inl e' ↦
        rw (e, e')
          record {
            screen =
                length-put_char_raw s.vga 32 s.current_col (pos (s.current_x - 1)) (pos s.current_y)
                ∙ v.screen;
            full_line = λ h. v.above_footer;
            below_header = v.below_header;
            above_end = omega (arith, v.above_footer);
            bars = untouched 32 (s.current_x - 1) (omega (arith, v.column));
          }
    | inr e' ↦
        rw (e, e')
          record {
            screen =
                length-put_char_raw s.vga c s.current_col (pos s.current_x) (pos s.current_y)
                ∙ v.screen;
            full_line = λ h. v.above_footer;
            below_header = v.below_header;
            above_end = omega (arith, v.above_footer);
            bars = untouched c s.current_x v.column;
          }
  ]
]
  where
    untouched :
        (c x : ℕ)
        → x < vga_width
        → (col : ℕ) → col < vga_width
        → (cell (put_char_raw s.vga c s.current_col (pos x) (pos s.current_y)) 0 col
            ≡ cell s.vga 0 col)
          × (cell (put_char_raw s.vga c s.current_col (pos x) (pos s.current_y)) 24 col
              ≡ cell s.vga 24 col)
    untouched c x h col h' =
        let at = cell-put_char_raw s.vga c s.current_col x s.current_y in
        let row : s.current_y < vga_height = omega (arith, v.above_footer) in
        (
          ground (arith, at 0 col v.screen h row h', v.below_header),
          ground (arith, at 24 col v.screen h row h', v.above_footer),
        )

-- The same with the line wrapped.
record IsWrapped (s t : Console) : Type 0 where
  screen : IsScreen t.vga
  column : t.current_x < vga_width
  below_header : 1 ≤ t.current_y
  above_end : t.current_y < vga_height
  bars : IsSameBars s t

wrap_line-IsWrapped : (s t : Console) → IsPlaced s t → IsWrapped s (wrap_line t)
wrap_line-IsWrapped s t p = elim (Bool-cases (leb vga_width t.current_x)) [
  | inr e ↦ rw e record {
    screen = p.screen;
    column = ground arith;
    below_header = p.below_header;
    above_end = p.above_end;
    bars = p.bars;
  }
  | inl e ↦
      let full : vga_width ≤ t.current_x = ground arith in
      rw e record {
        screen = p.screen;
        column = omega arith;
        below_header = omega arith;
        above_end = omega (arith, p.full_line full);
        bars = p.bars;
      }
]

scroll_shape :
    (t : Console)
    → (length (scroll t).vga ≡ length t.vga)
      × ((scroll t).current_x ≡ t.current_x)
      × ((scroll t).current_y ≡ vga_height - 2)
unfolding scroll
scroll_shape t = (
  length-draw_rect _ (pos 0) (pos 23) (pos 80) (pos 1) t.colors.bg
      ∙ length-scroll_from t.vga 80 1840,
  refl,
  refl,
)

update_cursor-IsValid :
    (s t : Console)
    → IsWrapped s t
    → t.current_y < vga_height - 1
    → IsValid (update_cursor t t.current_x t.current_y)
      × IsSameBars s (update_cursor t t.current_x t.current_y)
unfolding update_cursor
update_cursor-IsValid s t p above = (
  record {
    screen = p.screen;
    column = p.column;
    below_header = p.below_header;
    above_footer = above;
    shown = ground (arith, p.column);
  },
  p.bars,
)

scroll-IsWrapped : (s t : Console) → IsWrapped s t → IsWrapped s (scroll t)
scroll-IsWrapped s t p =
    let (size, x, y) = scroll_shape t in
    record {
      screen = size ∙ p.screen;
      column = omega (arith, x, p.column);
      below_header = omega (arith, y);
      above_end = omega (arith, y);
      bars = λ col h. (
        cell-scroll t 0 col p.screen (omega arith) h ∙ (p.bars col h).0,
        cell-scroll t 24 col p.screen (omega arith) h ∙ (p.bars col h).1,
      );
    }

scroll_if-IsWrapped :
    (s t : Console)
    → IsWrapped s t
    → IsWrapped s (scroll_if t) × ((scroll_if t).current_y < vga_height - 1)
scroll_if-IsWrapped s t p = elim (Bool-cases (leb (vga_height - 1) t.current_y)) [
  | inl below ↦ rw below (scroll-IsWrapped s t p, omega (arith, (scroll_shape t).2))
  | inr fits ↦ rw fits (p, ground arith)
]

pub put_char-IsValid :
    (s : Console) (c : ℕ) → IsValid s → IsValid (put_char s c) × IsSameBars s (put_char s c)
unfolding put_char
put_char-IsValid s c v =
    let placed = place_char-IsPlaced s c v in
    let (p, above) =
      scroll_if-IsWrapped s (wrap_line (place_char s c))
        (wrap_line-IsWrapped s (place_char s c) placed) in
    update_cursor-IsValid s (scroll_if (wrap_line (place_char s c))) p above

-- From a valid console, `print` of any string leads to a valid one, with the cursor in the text
-- area between the bars, and leaves every cell of the header's and the footer's row as it was.
pub print-IsValid :
    (s : Console) (text : CString)
    → IsValid s
    → IsValid (print s text) × IsSameBars s (print s text)
unfolding print
print-IsValid s [] v = (v, λ col h. (refl, refl))
print-IsValid s (c ∷ text) v =
    let (next, same) = put_char-IsValid s c v in
    let (last, same') = print-IsValid (put_char s c) text next in
    (last, λ col h. ((same' col h).0 ∙ (same col h).0, (same' col h).1 ∙ (same col h).1))
