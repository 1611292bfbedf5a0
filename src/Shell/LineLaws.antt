-- ===== src/Shell/LineLaws.antt =====
-- kernel.c: reading a line keeps to its 64 bytes, and the screen in order.
use tark_os.Prelude.{
  ℕ, zero, suc, ◌+◌, ◌-◌, ◌≤◌, ◌<◌, ◌≡◌, ◌≢◌, refl, ◌∙◌, ap, arith, inl, inr, ◌⊎◌,
}
use tark_os.Prelude.{
  Bool, true, false, not, ◌&&◌, leb, ltb, ◌==◌, if◌then◌else◌, Bool-cases, if_intro,
}
use tark_os.Prelude.{
  Option, none, some, List, [], ◌∷◌, ◌++◌, get_or, set, drop, length, length-set, length-append,
  length-drop,
}
use tark_os.Prelude.Int.{pos}
use tark_os.Text.{CString, newline, str_eq}
use tark_os.Console.{Console, backspace, put_char, draw_shell_dynamic}
use tark_os.Console.Cells.{length-print_at}
use tark_os.Console.Text.{IsValid, put_char-IsValid, print-IsValid}
use tark_os.Shell.{scancode_to_char, scancode_to_char-none, is_shift_down, is_shift_up}
use tark_os.Shell.Editor.{string_in, copied}
use tark_os.Shell.History.{IsHistory, remember-IsHistory, remember-le}
use tark_os.Shell.Line.{Terminal, erase_line, recall, enter_char, read_key, read_keys, take_line}

-- The line has its 64 bytes and room for a NUL at the cursor, the history is in order, and so is
-- the screen.
pub record IsTerminal (t : Terminal) : Type 0 where
  pub bytes : length t.line ≡ 64
  pub inside : t.pos < 64
  pub history : IsHistory t.history
  pub back : t.history_pos ≤ t.history.history_count
  pub screen : IsValid t.console

length-string_in : (s rest : List ℕ) → length (string_in (s ++ 0 ∷ rest)) ≤ length s
unfolding string_in
length-string_in [] rest = omega arith
length-string_in (zero ∷ s) rest = omega arith
length-string_in (suc c ∷ s) rest = omega (arith, length-string_in s rest)

length-string_in-set :
    (buf : List ℕ) (k : ℕ) → k < length buf → length (string_in (set buf k 0)) ≤ k
unfolding string_in
length-string_in-set [] k h = absurd (omega arith)
length-string_in-set (b ∷ buf) zero h = omega arith
length-string_in-set (zero ∷ buf) (suc k) h = omega arith
length-string_in-set (suc b ∷ buf) (suc k) h =
    omega (arith, length-string_in-set buf k (omega arith))

length-copied :
    (buf : List ℕ) (s : CString) → length s < length buf → length (copied buf s) ≡ length buf
length-copied buf s h =
    omega (arith, length-append s (0 ∷ drop (suc (length s)) buf), length-drop (suc (length s)) buf)

erase_line-IsValid : (s : Console) (n : ℕ) → IsValid s → IsValid (erase_line s n)
unfolding erase_line
erase_line-IsValid s zero v = v
erase_line-IsValid s (suc n) v =
    erase_line-IsValid (put_char s backspace) n (put_char-IsValid s backspace v).0

-- The clock stays in its corner.
draw_shell_dynamic-IsValid :
    (s : Console) (time : CString) → IsValid s → IsValid (draw_shell_dynamic s time)
unfolding draw_shell_dynamic
draw_shell_dynamic-IsValid s time v = elim (Bool-cases (str_eq time s.last_time)) [
  | inl same ↦ rw same v
  | inr new ↦ rw new record {
    screen = length-print_at s.vga (pos 71) (pos 0) time s.colors.header ∙ v.screen;
    column = v.column;
    below_header = v.below_header;
    above_footer = v.above_footer;
    shown = v.shown;
  }
]

recall-IsTerminal : (t : Terminal) → IsTerminal t → IsTerminal (recall t)
unfolding recall
recall-IsTerminal t v =
    let s = get_or t.history.history_buf (t.history_pos - 1) [] in
    let short = v.history.short (t.history_pos - 1) in
    let line = copied t.line s in
    record {
      bytes = length-copied t.line s (omega (arith, short, v.bytes)) ∙ v.bytes;
      inside = omega (arith, short, length-string_in s (drop (suc (length s)) t.line));
      history = v.history;
      back = omega (arith, v.back);
      screen =
          (print-IsValid (erase_line t.console t.pos) (string_in line)
            (erase_line-IsValid t.console t.pos v.screen)).0;
    }

module _ (t : Terminal) (v : IsTerminal t) where
  with_line :
      (line : List ℕ) (p c : ℕ)
      → length line ≡ 64
      → p < 64
      → IsTerminal (record t { line = line; pos = p; console = put_char t.console c })
  with_line line p c h k = record {
    bytes = h;
    inside = k;
    history = v.history;
    back = v.back;
    screen = (put_char-IsValid t.console c v.screen).0;
  }

  enter_char-IsTerminal : (c : ℕ) → IsTerminal (enter_char t c).0
  unfolding enter_char
  enter_char-IsTerminal c =
      let P = λ (r : Terminal × Bool). IsTerminal r.0 in
      if_intro P (c == 255) _ _ (λ e. v)
        (λ e.
          if_intro P (c == newline) _ _ (λ e. with_line t.line t.pos newline v.bytes v.inside)
            (λ e.
              if_intro P (c == backspace) _ _
                (λ e.
                  if_intro IsTerminal (t.pos == 0) _ _ (λ e. v)
                    (λ e. with_line t.line (t.pos - 1) backspace v.bytes (omega (arith, v.inside))))
                (λ e.
                  if_intro P (not (c == 0) && ltb t.pos 63) _ _
                    (λ e.
                      with_line (set t.line t.pos c) (t.pos + 1) c
                        (length-set t.line t.pos c ∙ v.bytes) (ground arith))
                    (λ e. v))))

-- There is a result, and its terminal is in order.
abbrev Reads : Option (Terminal × Bool) → Type 0
Reads o = (r : Terminal × Bool) × (o ≡ some r) × IsTerminal r.0

-- Neither F2 nor F10.
abbrev pub IsKey : ℕ → Type 0
IsKey sc = (sc ≢ 0x3C) × (sc ≢ 0x44)

shifted-IsTerminal : (t : Terminal) (b : Bool) → IsTerminal t → IsTerminal (record t { shift = b })
shifted-IsTerminal t b v = record {
  bytes = v.bytes;
  inside = v.inside;
  history = v.history;
  back = v.back;
  screen = v.screen;
}

char-Reads :
    (t : Terminal) (o : Option ℕ)
    → IsTerminal t
    → o ≢ none
    → Reads (elim o [ none ↦ none | some c ↦ some (enter_char t c) ])
char-Reads t none v h = absurd (h refl)
char-Reads t (some c) v h = (enter_char t c, refl, enter_char-IsTerminal t v c)

read_key-Reads :
    (time : CString) (t : Terminal) (sc : ℕ) → IsKey sc → IsTerminal t → Reads (read_key time t sc)
unfolding read_key
read_key-Reads time t sc key v =
    let shown = draw_shell_dynamic-IsValid t.console time v.screen in
    let clock = record t { console = draw_shell_dynamic t.console time } in
    let ready : IsTerminal clock = record {
      bytes = v.bytes;
      inside = v.inside;
      history = v.history;
      back = v.back;
      screen = shown;
    } in
    let shift = if is_shift_down sc then true else if is_shift_up sc then false else t.shift in
    let next = record clock { shift = shift } in
    let v' = shifted-IsTerminal clock shift ready in
    if_intro Reads (sc == 0) _ _ (λ e. ((clock, false), refl, ready))
      (λ e.
        if_intro Reads (leb 128 sc) _ _ (λ e. ((next, false), refl, v'))
          (λ e.
            if_intro Reads (sc == 0x48 && ltb 0 t.history.history_count) _ _
              (λ e. ((recall next, false), refl, recall-IsTerminal next v'))
              (λ e. char-Reads next (scancode_to_char sc shift) v' (λ none_there.
                elim ((scancode_to_char-none sc shift).0 none_there) [
                  | inl f2 ↦ key.0 f2
                  | inr f10 ↦ key.1 f10
                ]))))

abbrev terminal_of : Terminal → Option (Terminal × Bool) → Terminal
terminal_of t none = t
terminal_of t (some r) = r.0

read_on :
    (time : CString) (scans : List ℕ) (o : Option (Terminal × Bool))
    → Reads o
    → ((t : Terminal) → IsTerminal t → Reads (read_keys time t scans))
    → Reads (elim o [
      | none ↦ none
      | some (t', ended) ↦ if ended then some (t', true) else read_keys time t' scans
    ])
read_on time scans none (r, e, v) rest = absurd (ground (arith, e))
read_on time scans (some (t, true)) (r, e, v) rest =
    let same : t ≡ r.0 = ap (terminal_of t) e in ((t, true), refl, rw same v)
read_on time scans (some (t, false)) (r, e, v) rest =
    let same : t ≡ r.0 = ap (terminal_of t) e in rest t (rw same v)

abbrev pub AllKeys : List ℕ → Type 0
AllKeys [] = Unit
AllKeys (sc ∷ scans) = IsKey sc × AllKeys scans

-- From a terminal in order, the loop that reads a line gets through any scan codes but those of F2
-- and F10: the line keeps to its 64 bytes with a NUL, the history to its 8 lines, and the cursor to
-- the text area of the screen.
pub read_keys-IsTerminal :
    (time : CString) (t : Terminal) (scans : List ℕ)
    → AllKeys scans
    → IsTerminal t
    → (r : Terminal × Bool) × (read_keys time t scans ≡ some r) × IsTerminal r.0
unfolding read_keys
read_keys-IsTerminal time t [] keys v = ((t, false), refl, v)
read_keys-IsTerminal time t (sc ∷ scans) (key, keys) v =
    read_on time scans (read_key time t sc) (read_key-Reads time t sc key v)
      (λ t'. read_keys-IsTerminal time t' scans keys)

-- Where `take_line` gives a line, it is one of 1 to 63 bytes in the buffer, ended by a NUL, and the
-- terminal is in order.
pub take_line-IsTerminal :
    (t : Terminal)
    → IsTerminal t
    → (take_line t ≡ none)
      ⊎ ((r : Terminal × CString) × (take_line t ≡ some r) × (length r.1 < 64) × IsTerminal r.0)
unfolding take_line
take_line-IsTerminal t v =
    let line = set t.line t.pos 0 in
    let short : length (string_in line) < 64 =
      omega
        (arith, length-string_in-set t.line t.pos (omega (arith, v.bytes, v.inside)), v.inside) in
    if_intro
      (λ (o : Option (Terminal × CString)).
        (o ≡ none) ⊎ ((r : Terminal × CString) × (o ≡ some r) × (length r.1 < 64) × IsTerminal r.0))
      (t.pos == 0) _ _ (λ e. inl refl)
      (λ e. inr (
        (_, string_in line),
        refl,
        short,
        record {
          bytes = length-set t.line t.pos 0 ∙ v.bytes;
          inside = v.inside;
          history = remember-IsHistory t.history (string_in line) v.history short;
          back = omega (arith, v.back, remember-le t.history (string_in line));
          screen = v.screen;
        },
      ))
