-- ===== src/Shell/Dispatch.antt =====
-- kernel.c: `shell_loop` behind the reading of a line: the words of the line, the description of a
-- command that stands alone, the command, and a whole round of the loop.
use tark_os.Prelude.{
  ℕ, true, false, ltb, if◌then◌else◌, Option, none, some, List, [], ◌∷◌, length, codes, replicate,
}
use tark_os.Text.{CString, str_eq}
use tark_os.Text.Tokens.{split_args}
use tark_os.Shell.Help.{command_desc, command_runs_without_args}
use tark_os.Shell.Line.{Terminal, start_line, read_keys, take_line}
use tark_os.Shell.Session.{Session, Env, App, Command, say, word}
use tark_os.Shell.FileCommands.{
  run_mkdir, run_rmdir, run_cp, run_mv, run_touch, run_write, run_append, run_rm, run_cd,
  run_tredit,
}
use tark_os.Shell.InfoCommands.{
  run_help, run_sysinfo, run_about, run_df, run_wc, run_cpuinfo, run_calc, run_themes, run_echo,
  run_date, run_time, run_matrix, run_ls, run_pwd, run_cat, run_stat, run_find, run_history,
  run_clear, run_reboot, run_ver, run_pong, run_unknown,
}

-- The tests of the name in their order, with what they run.
abbrev pub commands : List (CString × Command)
commands =
    (codes "help", run_help)
    ∷ (codes "sysinfo", run_sysinfo)
    ∷ (codes "about", run_about)
    ∷ (codes "df", run_df)
    ∷ (codes "wc", run_wc)
    ∷ (codes "cpuinfo", run_cpuinfo)
    ∷ (codes "calc", run_calc)
    ∷ (codes "themes", run_themes)
    ∷ (codes "echo", run_echo)
    ∷ (codes "date", run_date)
    ∷ (codes "time", run_time)
    ∷ (codes "matrix", run_matrix)
    ∷ (codes "ls", run_ls)
    ∷ (codes "dir", run_ls)
    ∷ (codes "pwd", run_pwd)
    ∷ (codes "cd", run_cd)
    ∷ (codes "mkdir", run_mkdir)
    ∷ (codes "rmdir", run_rmdir)
    ∷ (codes "cat", run_cat)
    ∷ (codes "cp", run_cp)
    ∷ (codes "mv", run_mv)
    ∷ (codes "touch", run_touch)
    ∷ (codes "write", run_write)
    ∷ (codes "append", run_append)
    ∷ (codes "stat", run_stat)
    ∷ (codes "find", run_find)
    ∷ (codes "history", run_history)
    ∷ (codes "rm", run_rm)
    ∷ (codes "tredit", run_tredit)
    ∷ (codes "cls", run_clear)
    ∷ (codes "clear", run_clear)
    ∷ (codes "reboot", run_reboot)
    ∷ (codes "ver", run_ver)
    ∷ (codes "pong", run_pong)
    ∷ []

unfoldable pub find_command : List (CString × Command) → CString → Command
find_command [] name = run_unknown
find_command ((known, command) ∷ rows) name =
    let rest = find_command rows name in if str_eq name known then command else rest

-- The command of the first word, behind its description.
unfoldable pub run_described : Env → Session → List CString → CString → Session × App
run_described env s argv raw_line =
    let name = word argv 0 in
    elim (if ltb (length argv) 2 then command_desc name else none) [
      | none ↦ find_command commands name env s argv raw_line
      | some desc ↦ elim (command_runs_without_args name) [
        | true ↦ find_command commands name env (say s (desc ∷ codes "\n" ∷ [])) argv raw_line
        | false ↦ (say s (desc ∷ codes "\n" ∷ []), App.no_app)
      ]
    ]

unfoldable pub run_line : Env → Session → CString → Session × App
run_line env s line = elim (split_args 8 line) [
  | [] ↦ (s, App.no_app)
  | name ∷ args ↦ run_described env s (name ∷ args) line
]

-- The terminal on which a line is read, and what the loop keeps of it.
abbrev pub fresh_terminal : Session → Terminal
fresh_terminal s = record {
  console = s.console;
  line = replicate 64 0;
  pos = 0;
  shift = s.shift;
  history_pos = 0;
  history = s.history;
}

abbrev pub keeps : Session → Terminal → Session
keeps s t = record s { console = t.console; history = t.history; shift = t.shift }

-- A round of the loop on the scan codes that the keyboard gives. Nothing, where the code reads
-- behind its table of keys.
unfoldable pub shell_round : Env → Session → List ℕ → Option (Session × App)
shell_round env s scans =
    elim (read_keys env.time (start_line s.current_path (fresh_terminal s)) scans) [
      | none ↦ none
      | some (t, false) ↦ some (keeps s t, App.waits_for_keys)
      | some (t, true) ↦ elim (take_line t) [
        | none ↦ some (keeps s t, App.no_app)
        | some (t', line) ↦ some (run_line env (keeps s t') line)
      ]
    ]
