-- ===== src/Shell/InfoCommands.antt =====
-- kernel.c: the commands of `shell_loop` that only print, or change the colours.
use tark_os.Prelude.{
  ℕ, zero, suc, ◌+◌, ◌*◌, ◌-◌, ◌/◌, ◌==◌, ◌&&◌, ltb, if◌then◌else◌, none, some, List, [], ◌∷◌, ◌++◌,
  length, codes, get_or, drop,
}
use tark_os.Text.{CString, str_eq, slash, count_lines, count_words}
use tark_os.Text.Tokens.{after_n_tokens, calc_eval}
use tark_os.Clib.Number.{kernel_itoa}
use tark_os.Fs.{
  Table, file_at, fs_find_file, fs_used_files, fs_used_bytes, max_files, max_file_size,
}
use tark_os.Fs.Dirs.{build_path}
use tark_os.Fs.Commands.{find}
use tark_os.Console.{set_color, set_theme, clear_screen}
use tark_os.Shell.Editor.{string_in}
use tark_os.Shell.Listing.{ls_dir_path, ls_current_dir}
use tark_os.Shell.Session.{Session, App, Command, say, word, number, path_of}

-- `set_color(fg, col_bg >> 4)`
abbrev pub color : Session → ℕ → Session
color s fg = record s { console = set_color s.console fg (s.console.colors.bg / 16) }

unfoldable pub run_help : Command
run_help env s argv raw_line =
    let accent = color s s.console.colors.accent in
    let titled = say accent (codes "\nTARKOS NOVA ULTIMATE - CONSOLE ASSISTANCE\n" ∷ []) in
    (
      say (color titled 0x0F) (
          codes
            "- FS: ls, cat, touch, rm, cd, mkdir, rmdir, cp, mv, pwd, write, append, stat, find\n"
          ∷ (codes "- App: tredit, cls, ver, reboot, time, date, echo, matrix, "
              ++ codes "cpuinfo, calc, themes, sysinfo, pong, history\n")
          ∷ codes "- Info: about, df, wc\n"
          ∷ codes "- UI: 9.4s Hyper Boot [Enabled]\n"
          ∷ []),
      App.no_app,
    )

unfoldable pub run_sysinfo : Command
run_sysinfo env s argv raw_line = (
  say s (
      codes "TarkOS Nova v1.9.6 [Eternal Edition]\n"
      ∷ codes "Build: 2026-01-30.01\n"
      ∷ codes "Kernel: 32-bit x86 Protected Mode\n"
      ∷ codes "Memory Manager: PMM + Paging [Active]\n"
      ∷ codes "CPU: Multiboot Detected 3-Core SMP\n"
      ∷ codes "GUI: Zero-Flicker Dual-Bar [Stable]\n"
      ∷ []),
  App.no_app,
)

unfoldable pub run_about : Command
run_about env s argv raw_line = (
  say s (
      codes "TarkOS Nova v1.9.6 Ultimate\n"
      ∷ codes "Hyper Boot: 9.4s | SMP x3 | RAM 512MB\n"
      ∷ codes "VFS: RAMDisk | Shell: Nova Console v3.7\n"
      ∷ codes "Themes: dark, neon, classic\n"
      ∷ []),
  App.no_app,
)

unfoldable pub run_df : Command
run_df env s argv raw_line = (
  say s (
      codes "Files: "
      ∷ number (fs_used_files s.fs_table)
      ∷ codes "/"
      ∷ number max_files
      ∷ codes "\nData: "
      ∷ number (fs_used_bytes s.fs_table)
      ∷ codes "/"
      ∷ number (max_files * (max_file_size - 1))
      ∷ codes " bytes\n"
      ∷ []),
  App.no_app,
)

-- `fs_table[id].data`, as a string.
abbrev pub data_at : Table → ℕ → CString
data_at t id = string_in (file_at t id).contents

abbrev pub missing_file : List CString
missing_file = codes "Error: File not found.\n" ∷ []

unfoldable pub wc_texts : Table → CString → List CString
wc_texts t path = elim (fs_find_file t path) [
  | none ↦ missing_file
  | some id ↦
      codes "Lines: "
      ∷ number (count_lines (data_at t id))
      ∷ codes "  Words: "
      ∷ number (count_words (data_at t id))
      ∷ codes "  Bytes: "
      ∷ number (file_at t id).size
      ∷ codes "\n"
      ∷ []
]

unfoldable pub run_wc : Command
run_wc env s argv raw_line = (
  say s (
      if ltb (length argv) 2
      then codes "Usage: wc <filename>\n" ∷ []
      else elim (build_path s.current_path (word argv 1)) [
        | none ↦ codes "Error: Invalid path.\n" ∷ []
        | some path ↦ wc_texts s.fs_table path
      ]),
  App.no_app,
)

unfoldable pub run_cpuinfo : Command
run_cpuinfo env s argv raw_line = (
  say s (
      codes "CPU Vendor: "
      ∷ (if env.cpuid == 0 then codes "Unknown\n" else codes "x86 Compatible\n")
      ∷ []),
  App.no_app,
)

-- The first four bytes of the line are taken for the command's name.
unfoldable pub run_calc : Command
run_calc env s argv raw_line = (
  say s (elim (calc_eval (drop 4 raw_line)) [
    | none ↦ codes "Usage: calc <a> <op> <b>\n" ∷ []
    | some res ↦ codes "Result: " ∷ kernel_itoa res ∷ codes "\n" ∷ []
  ]),
  App.no_app,
)

abbrev pub theme : Session → ℕ → Session
theme s n = record s { console = set_theme s.console n }

unfoldable pub run_themes : Command
run_themes env s argv raw_line = (
  (if length argv == 2 && str_eq (word argv 1) (codes "dark")
      then theme s 0
      else if length argv == 2 && str_eq (word argv 1) (codes "neon")
      then theme s 1
      else if length argv == 2 && str_eq (word argv 1) (codes "classic")
      then theme s 2
      else say s (codes "Usage: themes [dark|neon|classic]\n" ∷ [])),
  App.no_app,
)

unfoldable pub run_echo : Command
run_echo env s argv raw_line =
    let msg = after_n_tokens raw_line 1 in
    ((if length msg == 0 then s else say s (msg ∷ codes "\n" ∷ [])), App.no_app)

unfoldable pub run_date : Command
run_date env s argv raw_line = (
  say s (codes "Today is: " ∷ env.date ∷ codes " | Local Time: " ∷ env.time ∷ codes "\n" ∷ []),
  App.no_app,
)

unfoldable pub run_time : Command
run_time env s argv raw_line =
    (say s (codes "System Time: " ∷ env.time ∷ codes "\n" ∷ []), App.no_app)

unfoldable pub run_matrix : Command
run_matrix env s argv raw_line = (s, App.effect_matrix)

unfoldable pub run_ls : Command
run_ls env s argv raw_line =
    let root = slash ∷ [] in
    (
      (if length argv == 1
          then record s { console = (ls_current_dir s.current_path s.fs_table s.console).0 }
          else if str_eq (word argv 1) root
          then record s { console = (ls_dir_path root s.fs_table s.console).0 }
          else elim (build_path s.current_path (word argv 1)) [
            | none ↦ say s (codes "Error: Invalid path.\n" ∷ [])
            | some path ↦ record s { console = (ls_dir_path path s.fs_table s.console).0 }
          ]),
      App.no_app,
    )

unfoldable pub run_pwd : Command
run_pwd env s argv raw_line = (say s (s.current_path ∷ codes "\n" ∷ []), App.no_app)

unfoldable pub run_cat : Command
run_cat env s argv raw_line = (
  say s (
      if ltb (length argv) 2
      then codes "Usage: cat <filename>\n" ∷ []
      else elim (fs_find_file s.fs_table (path_of env.unset s (word argv 1))) [
        | none ↦ missing_file
        | some id ↦ data_at s.fs_table id ∷ codes "\n" ∷ []
      ]),
  App.no_app,
)

unfoldable pub run_stat : Command
run_stat env s argv raw_line =
    let path = path_of env.unset s (word argv 1) in
    (
      say s (
          if ltb (length argv) 2
          then codes "Usage: stat <filename>\n" ∷ []
          else elim (fs_find_file s.fs_table path) [
            | none ↦ missing_file
            | some id ↦
                codes "Name: "
                ∷ path
                ∷ codes "\nSize: "
                ∷ number (file_at s.fs_table id).size
                ∷ codes " bytes\n"
                ∷ []
          ]),
      App.no_app,
    )

-- Each string in a line of its own.
unfoldable pub lines_of : List CString → List CString
lines_of [] = []
lines_of (text ∷ texts) = text ∷ codes "\n" ∷ lines_of texts

unfoldable pub run_find : Command
run_find env s argv raw_line =
    let names = find s.fs_table (word argv 1) in
    (
      say s (
          if ltb (length argv) 2
          then codes "Usage: find <text>\n" ∷ []
          else if length names == 0
          then codes "No matches.\n" ∷ []
          else lines_of names),
      App.no_app,
    )

-- The loop of `history` at entry `i`, with `n` to go.
unfoldable pub history_texts : List CString → ℕ → ℕ → List CString
history_texts buf i zero = []
history_texts buf i (suc n) =
    number (i + 1) ∷ codes ": " ∷ get_or buf i [] ∷ codes "\n" ∷ history_texts buf (i + 1) n

unfoldable pub run_history : Command
run_history env s argv raw_line =
    (say s (history_texts s.history.history_buf 0 s.history.history_count), App.no_app)

unfoldable pub run_clear : Command
run_clear env s argv raw_line = (record s { console = clear_screen s.console }, App.no_app)

unfoldable pub run_reboot : Command
run_reboot env s argv raw_line = (s, App.reboot)

unfoldable pub run_ver : Command
run_ver env s argv raw_line =
    (say s (codes "TarkOS Nova v1.9.6 Ultimate [Stable]\n" ∷ []), App.no_app)

unfoldable pub run_pong : Command
run_pong env s argv raw_line = (s, App.game_pong)

unfoldable pub run_unknown : Command
run_unknown env s argv raw_line =
    (say s (codes "Nova Error: '" ∷ raw_line ∷ codes "' unknown.\n" ∷ []), App.no_app)
