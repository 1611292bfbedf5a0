-- ===== src/Shell/Editor.antt =====
-- kernel.c: `tredit`. The buffer is its 2,048 bytes; a write behind its end changes nothing here.
use tark_os.Prelude.{
  ℕ, zero, suc, ◌+◌, ◌-◌, Bool, true, false, not, ◌&&◌, ◌||◌, leb, ltb, ◌==◌, if◌then◌else◌,
}
use tark_os.Prelude.{
  none, some, List, [], ◌∷◌, ◌++◌, codes, set, take, drop, length, replicate, bit_and, bit_or,
}
use tark_os.Prelude.Int.{pos}
use tark_os.Text.{CString, newline}
use tark_os.Fs.{Table, max_file_size, file_at, fs_find_file, fs_write_file}
use tark_os.Clib.Number.{kernel_itoa}
use tark_os.Console.{Console, backspace, put_char_raw, draw_rect, print_at, update_cursor}
use tark_os.Shell.{scancode_to_char, is_shift_down, is_shift_up}

pub record Editor : Type 0 where
  pub edit_buffer : List ℕ
  pub ptr : ℕ
  pub run : Bool
  pub shift : Bool
  pub redraw : Bool
  pub fs_table : Table

-- The string that starts at a byte array's first element.
unfoldable pub string_in : List ℕ → CString
string_in [] = []
string_in (zero ∷ bs) = []
string_in (suc b ∷ bs) = suc b ∷ string_in bs

-- `strcpy` of a string to the start of an array.
abbrev pub copied : List ℕ → CString → List ℕ
copied buf s = s ++ 0 ∷ drop (suc (length s)) buf

-- The buffer keeps what lies behind the file's text.
unfoldable pub open_file : Table → CString → List ℕ → Editor
unfolding fs_find_file string_in
open_file t filename buf =
    let start : List ℕ = elim (fs_find_file t filename) [
      | some id ↦ copied buf (string_in (file_at t id).contents)
      | none ↦ replicate max_file_size 0
    ] in
    record {
      edit_buffer = start;
      ptr = length (string_in start);
      run = true;
      shift = false;
      redraw = true;
      fs_table = t;
    }

-- What the last branch does with a character.
unfoldable pub type_char : Editor → ℕ → Editor
type_char e ch =
    if ch == newline || ch == backspace || (not (ch == 0) && ltb e.ptr (max_file_size - 1))
    then (if ch == backspace
        then (if e.ptr == 0 then record e { redraw = true } else record e {
          edit_buffer = set e.edit_buffer (e.ptr - 1) 0;
          ptr = e.ptr - 1;
          redraw = true;
        })
        else record e { edit_buffer = set e.edit_buffer e.ptr ch; ptr = e.ptr + 1; redraw = true })
    else e

-- A round of the loop, which draws first where `redraw` asks for it, for the scan code that it
-- reads. The table is only asked for keys that it has.
unfoldable pub press : CString → Editor → ℕ → Editor
unfolding fs_write_file scancode_to_char type_char
press filename before sc =
    let e = record before { redraw = false } in
    let saved = fs_write_file e.fs_table filename e.edit_buffer (pos e.ptr) in
    if sc == 0
    then e
    else if is_shift_down sc
    then record e { shift = true }
    else if is_shift_up sc
    then record e { shift = false }
    else if leb 128 sc
    then e
    else if sc == 0x01 || sc == 0x44
    then record e { run = false }
    else if sc == 0x3C
    then record e { fs_table = saved.0; redraw = true }
    else elim (scancode_to_char sc e.shift) [ none ↦ e | some ch ↦ type_char e ch ]

-- The loop, on the scan codes that the keyboard gives; it ends with `run`.
unfoldable pub press_all : CString → Editor → List ℕ → Editor
unfolding press
press_all filename e [] = e
press_all filename e (sc ∷ scans) =
    let rest = press_all filename (press filename e sc) scans in if e.run then rest else e

-- The loop that finds the cursor's line and column, over the bytes before it.
unfoldable pub cursor_from : List ℕ → ℕ → ℕ → ℕ × ℕ
cursor_from [] r c = (r, c)
cursor_from (b ∷ bs) r c =
    if b == newline
    then cursor_from bs (r + 1) 1
    else if ltb 78 (c + 1)
    then cursor_from bs (r + 1) 1
    else cursor_from bs r (c + 1)

-- The loop that draws the text, with the line and the column where it ends.
unfoldable pub draw_text : List ℕ → ℕ → List ℕ → ℕ → ℕ → List ℕ × (ℕ × ℕ)
unfolding put_char_raw
draw_text vga col [] r c = (vga, (r, c))
draw_text vga col (b ∷ bs) r c =
    let drawn = put_char_raw vga b col (pos c) (pos r) in
    let wrapped = if ltb 78 (c + 1) then (r + 1, 1) else (r, c + 1) in
    let vga' = if b == newline then vga else drawn in
    let at = if b == newline then (r + 1, 1) else wrapped in
    let rest = draw_text vga' col bs at.0 at.1 in if ltb 23 at.0 then (vga', at) else rest

unfoldable pub draw_editor : Console → CString → Editor → Console
unfolding draw_rect print_at kernel_itoa cursor_from draw_text update_cursor
draw_editor s filename e =
    let bg = s.colors.bg in
    let footer = s.colors.footer in
    let text = take e.ptr e.edit_buffer in
    let (row, column) = cursor_from text 1 1 in
    let v0 = draw_rect s.vga (pos 0) (pos 0) (pos 80) (pos 25) bg in
    let v1 = draw_rect v0 (pos 0) (pos 0) (pos 80) (pos 1) s.colors.header in
    let v2 =
      print_at v1 (pos 1) (pos 0) (codes " TrEdit Professional v3.9 | Editing: ") s.colors.header in
    let v3 = print_at v2 (pos 38) (pos 0) filename s.colors.header in
    let v4 = draw_rect v3 (pos 0) (pos 24) (pos 80) (pos 1) footer in
    let v5 = print_at v4 (pos 2) (pos 24) (codes "Line: ") footer in
    let v6 = print_at v5 (pos 8) (pos 24) (kernel_itoa (pos row)) footer in
    let v7 = print_at v6 (pos 14) (pos 24) (codes "Col: ") footer in
    let v8 = print_at v7 (pos 19) (pos 24) (kernel_itoa (pos column)) footer in
    let v9 = print_at v8 (pos 32) (pos 24) (codes " [ F2: Save ]  [ F10/ESC: Exit ] ") footer in
    let (v10, at) = draw_text v9 (bit_or (bit_and bg 0xF0) 0x0F) text 1 1 in
    update_cursor (record s { vga = v10 }) at.1 at.0
