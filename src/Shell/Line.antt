-- ===== src/Shell/Line.antt =====
-- kernel.c: `shell_loop` up to the commands, which reads a line. What a key prints goes to the
-- console; `time` is what `get_time_str` gives for the clock.
use tark_os.Prelude.{
  ℕ, zero, suc, ◌+◌, ◌-◌, ◌/◌, Bool, true, false, not, ◌&&◌, leb, ltb, ◌==◌, if◌then◌else◌,
}
use tark_os.Prelude.{Option, none, some, List, [], ◌∷◌, codes, get_or, set, length, replicate}
use tark_os.Text.{CString, newline}
use tark_os.Console.{Console, set_color, backspace, put_char, print, draw_shell_dynamic}
use tark_os.Shell.{scancode_to_char, is_shift_down, is_shift_up}
use tark_os.Shell.Editor.{string_in, copied}
use tark_os.Shell.History.{History, remember}

pub record Terminal : Type 0 where
  pub console : Console
  pub line : List ℕ
  pub pos : ℕ
  pub shift : Bool
  pub history_pos : ℕ
  pub history : History

-- The prompt, and an empty line.
unfoldable pub start_line : CString → Terminal → Terminal
unfolding set_color print
start_line current_path t =
    let bg = t.console.colors.bg / 16 in
    let c1 = print (set_color t.console 0x0F bg) (newline ∷ codes "[nova] ") in
    let c2 = print (set_color c1 t.console.colors.prompt bg) current_path in
    let c3 = print (set_color c2 t.console.colors.accent bg) (codes " >> ") in
    record t {
      console = set_color c3 0x0F bg;
      pos = 0;
      history_pos = t.history.history_count;
      line = replicate 64 0;
    }

-- `while (pos > 0) { pos--; put_char('\b'); }`
unfoldable pub erase_line : Console → ℕ → Console
unfolding put_char
erase_line s zero = s
erase_line s (suc pos) = erase_line (put_char s backspace) pos

-- The key Up, with lines to go back to.
unfoldable pub recall : Terminal → Terminal
unfolding erase_line print string_in
recall t =
    let at = t.history_pos - 1 in
    let line = copied t.line (get_or t.history.history_buf at []) in
    record t {
      history_pos = at;
      console = print (erase_line t.console t.pos) (string_in line);
      line = line;
      pos = length (string_in line);
    }

-- What a character does, with whether it ends the line.
unfoldable pub enter_char : Terminal → ℕ → Terminal × Bool
unfolding put_char
enter_char t c =
    if c == 255
    then (t, false)
    else if c == newline
    then (record t { console = put_char t.console newline }, true)
    else if c == backspace
    then (
      (if t.pos == 0
          then t
          else record t { pos = t.pos - 1; console = put_char t.console backspace }),
      false,
    )
    else if not (c == 0) && ltb t.pos 63
    then (
      record t { line = set t.line t.pos c; pos = t.pos + 1; console = put_char t.console c },
      false,
    )
    else (t, false)

-- A round of the loop that reads a line; nothing, where the code reads behind its table of keys.
unfoldable pub read_key : CString → Terminal → ℕ → Option (Terminal × Bool)
unfolding draw_shell_dynamic recall scancode_to_char enter_char
read_key time before sc =
    let clock = record before { console = draw_shell_dynamic before.console time } in
    let shift = if is_shift_down sc then true else if is_shift_up sc then false else clock.shift in
    let t = record clock { shift = shift } in
    if sc == 0
    then some (clock, false)
    else if leb 128 sc
    then some (t, false)
    else if sc == 0x48 && ltb 0 t.history.history_count
    then some (recall t, false)
    else elim (scancode_to_char sc shift) [ none ↦ none | some c ↦ some (enter_char t c) ]

-- The loop, on the scan codes that the keyboard gives, until a line ends or the codes do.
unfoldable pub read_keys : CString → Terminal → List ℕ → Option (Terminal × Bool)
unfolding read_key
read_keys time t [] = some (t, false)
read_keys time t (sc ∷ scans) = elim (read_key time t sc) [
  | none ↦ none
  | some (t', ended) ↦ if ended then some (t', true) else read_keys time t' scans
]

-- `line[pos] = 0;` and what follows up to `split_args`: the line, which the history keeps. An empty
-- one is dropped.
unfoldable pub take_line : Terminal → Option (Terminal × CString)
unfolding string_in remember
take_line t =
    let line = set t.line t.pos 0 in
    if t.pos == 0
    then none
    else some
        (record t { line = line; history = remember t.history (string_in line) }, string_in line)
