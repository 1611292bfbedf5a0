-- ===== src/Shell/Boot.antt =====
-- kernel.c: the start of the kernel, `kmain`: the first table of files, the picture that is drawn
-- while the kernel starts, and the shell. `delay_ms` only waits, and is not shown.
use tark_os.Prelude.{
  ℕ, zero, suc, ◌+◌, ◌*◌, ◌/◌, ◌%◌, false, Option, none, some, List, [], ◌∷◌, codes, get_or,
}
use tark_os.Prelude.Int.{pos}
use tark_os.Text.{CString, slash}
use tark_os.Fs.{fs_init}
use tark_os.Console.{Console, Colors, set_color, print_at, put_char_raw, clear_screen}
use tark_os.Console.Window.{draw_window}
use tark_os.Shell.Session.{Session, Env, App}
use tark_os.Shell.Dispatch.{shell_round}

-- The strings that are printed in the window, with their places and colours.
abbrev pub boot_texts : Colors → List ((ℕ × ℕ) × (CString × ℕ))
boot_texts colors =
    ((10, 4), (codes "====================== NOVA CORE ======================", 0x1B))
    ∷ ((10, 6), (codes " _____   _    ____  _  _  _____  ____   ____ ", 0x1B))
    ∷ ((10, 7), (codes "|_   _| / \\  |  _ \\| |/ /| ____|/ ___| / ___|", 0x1B))
    ∷ ((10, 8), (codes "  | |  / _ \\ | |_) | ' / |  _|  \\___ \\ \\___ \\", 0x1B))
    ∷ ((10, 9), (codes "  | | / ___ \\|  _ <| . \\ | |___  ___) | ___) |", 0x1B))
    ∷ ((10, 10), (codes "  |_|/_/   \\_\\_| \\_\\_|\\_\\|_____||____/ |____/ ", 0x1B))
    ∷ ((12, 12), (codes "NOVA ETERNAL KERNEL v1.9.6 ULTIMATE", colors.accent))
    ∷ ((12, 13), (codes "SMP x3  |  RAM 512MB  |  VFS RAMDisk  |  VGA TUI", colors.success))
    ∷ ((12, 14), (codes "Boot Target: 9.4s  |  Secure Init  |  Stable", colors.success))
    ∷ []

unfoldable pub draw_texts : List ℕ → List ((ℕ × ℕ) × (CString × ℕ)) → List ℕ
draw_texts vga [] = vga
draw_texts vga (((x, y), (text, col)) ∷ texts) =
    draw_texts (print_at vga (pos x) (pos y) text col) texts

abbrev pub phases : List CString
phases =
    codes "[ CORE   ] Multi-Core Vector Alignment..."
    ∷ codes "[ MEMORY ] High-Integrity Page Map Build..."
    ∷ codes "[ VFS    ] RAMDisk Index and Metadata..."
    ∷ codes "[ TUI    ] Dual-Bar Zero-Flicker Renderer..."
    ∷ codes "[ IO     ] Interrupt and Device Sync..."
    ∷ codes "[ SHELL  ] Professional Console Context..."
    ∷ []

abbrev pub spin : List ℕ
spin = codes "|/-\\"

-- The inner loop at `i` of phase `p`, with `n` to go.
unfoldable pub spin_rounds : List ℕ → Colors → ℕ → ℕ → ℕ → ℕ → List ℕ
spin_rounds vga colors p spin_idx i zero = vga
spin_rounds vga colors p spin_idx i (suc n) =
    let turned = print_at vga (pos 62) (pos 17) (get_or spin (spin_idx % 4) 0 ∷ []) colors.accent in
    spin_rounds (put_char_raw turned 219 0x0B (pos (8 + p * 11 + i)) (pos 21)) colors p
      (spin_idx + 1) (i + 1) n

-- The outer loop from phase `p` on; the sign is turned 11 times in a phase.
unfoldable pub run_phases : List ℕ → Colors → ℕ → ℕ → List CString → List ℕ
run_phases vga colors p spin_idx [] = vga
run_phases vga colors p spin_idx (phase ∷ rest) =
    let blank = codes "                                                      " in
    let cleared = print_at vga (pos 12) (pos 17) blank colors.bg in
    let named = print_at cleared (pos 12) (pos 17) phase colors.success in
    run_phases (spin_rounds named colors p spin_idx 0 11) colors (p + 1) (spin_idx + 11) rest

unfoldable pub hyper_cinematic_nova_eternal_boot : Console → Console
hyper_cinematic_nova_eternal_boot s =
    let c = clear_screen s in
    let title = codes " TARKOS NOVA | HYPER BOOT 9.4s " in
    let window = draw_window c.vga c.colors (pos 5) (pos 2) (pos 70) (pos 21) title c.colors.bg in
    let t = set_color (record c { vga = window }) 0x1B (c.colors.bg / 16) in
    record t { vga = run_phases (draw_texts t.vga (boot_texts t.colors)) t.colors 0 0 phases }

-- `kmain` up to the loop of the shell, on the screen and with the history's memory at the start.
unfoldable pub kmain : Console → List CString → Session
kmain screen history_buf = record {
  console = clear_screen (hyper_cinematic_nova_eternal_boot screen);
  fs_table = fs_init;
  current_path = slash ∷ [];
  history = record { history_buf = history_buf; history_count = 0 };
  shift = false;
}

-- The loop of the shell, with what each round reads of the machine and the scan codes that it is
-- given, up to the round that starts the editor, the game, the matrix or the machine anew, or has no
-- more scan codes.
unfoldable pub shell_loop : Session → List (Env × List ℕ) → Option (Session × App)
shell_loop s [] = some (s, App.no_app)
shell_loop s ((env, scans) ∷ rounds) = elim (shell_round env s scans) [
  | none ↦ none
  | some (s', App.no_app) ↦ shell_loop s' rounds
  | some (s', App.waits_for_keys) ↦ some (s', App.waits_for_keys)
  | some (s', App.effect_matrix) ↦ some (s', App.effect_matrix)
  | some (s', App.game_pong) ↦ some (s', App.game_pong)
  | some (s', App.reboot) ↦ some (s', App.reboot)
  | some (s', App.tredit path) ↦ some (s', App.tredit path)
]
