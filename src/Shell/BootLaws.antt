-- ===== src/Shell/BootLaws.antt =====
-- kernel.c: from `kmain` on the shell is in order, round after round.
use tark_os.Prelude.{
  ℕ, zero, suc, ◌+◌, ◌*◌, ◌%◌, ◌≡◌, refl, ◌∙◌, arith, true, List, [], ◌∷◌, codes, length, get_or,
}
use tark_os.Prelude.Int.{pos}
use tark_os.Text.{CString}
use tark_os.Fs.{fs_name_valid}
use tark_os.Fs.Calls.{init-IsValid}
use tark_os.Console.{Console, Colors, set_color, print_at, put_char_raw, clear_screen}
use tark_os.Console.Cells.{IsScreen, length-print_at, length-put_char_raw}
use tark_os.Console.Screen.{clear_screen-IsValid}
use tark_os.Console.Window.{draw_window}
use tark_os.Console.WindowLaws.{length-draw_window}
use tark_os.Shell.History.{AllShort, history_size}
use tark_os.Shell.Session.{Session, Env}
use tark_os.Shell.LineLaws.{AllKeys}
use tark_os.Shell.SessionLaws.{IsSession}
use tark_os.Shell.Boot.{
  draw_texts, spin, spin_rounds, run_phases, boot_texts, phases, hyper_cinematic_nova_eternal_boot,
  kmain,
}

length-draw_texts :
    (texts : List ((ℕ × ℕ) × (CString × ℕ))) (vga : List ℕ)
    → length (draw_texts vga texts) ≡ length vga
unfolding draw_texts
length-draw_texts [] vga = refl
length-draw_texts (((x, y), (text, col)) ∷ texts) vga =
    length-draw_texts texts (print_at vga (pos x) (pos y) text col)
    ∙ length-print_at vga (pos x) (pos y) text col

length-spin_rounds :
    (n p : ℕ) (colors : Colors) (vga : List ℕ) (spin_idx i : ℕ)
    → length (spin_rounds vga colors p spin_idx i n) ≡ length vga
unfolding spin_rounds
length-spin_rounds zero p colors vga spin_idx i = refl
length-spin_rounds (suc n) p colors vga spin_idx i =
    let sign = get_or spin (spin_idx % 4) 0 ∷ [] in
    let turned = print_at vga (pos 62) (pos 17) sign colors.accent in
    let x = pos (8 + p * 11 + i) in
    length-spin_rounds n p colors (put_char_raw turned 219 0x0B x (pos 21)) (spin_idx + 1) (i + 1)
    ∙ length-put_char_raw turned 219 0x0B x (pos 21)
    ∙ length-print_at vga (pos 62) (pos 17) sign colors.accent

length-run_phases :
    (texts : List CString) (colors : Colors) (vga : List ℕ) (p spin_idx : ℕ)
    → length (run_phases vga colors p spin_idx texts) ≡ length vga
unfolding run_phases
length-run_phases [] colors vga p spin_idx = refl
length-run_phases (phase ∷ rest) colors vga p spin_idx =
    let blank = codes "                                                      " in
    let cleared = print_at vga (pos 12) (pos 17) blank colors.bg in
    let named = print_at cleared (pos 12) (pos 17) phase colors.success in
    length-run_phases rest colors (spin_rounds named colors p spin_idx 0 11) (p + 1) (spin_idx + 11)
    ∙ length-spin_rounds 11 p colors named spin_idx 0
    ∙ length-print_at cleared (pos 12) (pos 17) phase colors.success
    ∙ length-print_at vga (pos 12) (pos 17) blank colors.bg

boot-IsScreen : (s : Console) → IsScreen s.vga → IsScreen (hyper_cinematic_nova_eternal_boot s).vga
unfolding hyper_cinematic_nova_eternal_boot set_color
boot-IsScreen s h =
    let c = clear_screen s in
    let title = codes " TARKOS NOVA | HYPER BOOT 9.4s " in
    let window = draw_window c.vga c.colors (pos 5) (pos 2) (pos 70) (pos 21) title c.colors.bg in
    length-run_phases phases c.colors (draw_texts window (boot_texts c.colors)) 0 0
    ∙ length-draw_texts (boot_texts c.colors) window
    ∙ length-draw_window c.vga c.colors (pos 5) (pos 2) (pos 70) (pos 21) title c.colors.bg
    ∙ (clear_screen-IsValid s h).screen

pub kmain-IsSession :
    (screen : Console) (buf : List CString)
    → IsScreen screen.vga
    → length buf ≡ history_size
    → AllShort buf
    → IsSession (kmain screen buf)
unfolding kmain
kmain-IsSession screen buf h places short = record {
  console =
      clear_screen-IsValid (hyper_cinematic_nova_eternal_boot screen) (boot-IsScreen screen h);
  table = init-IsValid;
  history = record { places = places; count = omega arith; short = short };
  path = omega arith;
}

-- The scan codes of each round are none of F2 and F10, and in each round the buffer of a destination
-- that is not set holds what passes for a file's name.
unfoldable pub AllRounds : List (Env × List ℕ) → Type 0
AllRounds [] = Unit
AllRounds ((env, scans) ∷ rounds) =
    (fs_name_valid env.unset_dest ≡ true) × AllKeys scans × AllRounds rounds
