-- ===== src/Shell/RoundLaws.antt =====
-- kernel.c: a line of the shell, and a round of its loop, keep the shell in order.
use tark_os.Prelude.{
  ℕ, ◌/◌, ◌<◌, ◌≡◌, refl, arith, Bool, true, false, inl, inr, Option, none, some, List, ◌∷◌, length,
  codes, length-replicate, ◌⊎◌,
}
use tark_os.Text.{CString, newline}
use tark_os.Text.Tokens.{split_args}
use tark_os.Fs.{fs_name_valid}
use tark_os.Console.{set_color, print}
use tark_os.Console.Text.{print-IsValid}
use tark_os.Console.Screen.{set_color-IsValid}
use tark_os.Shell.Line.{Terminal, start_line, take_line}
use tark_os.Shell.LineLaws.{IsTerminal, AllKeys, read_keys-IsTerminal, take_line-IsTerminal}
use tark_os.Shell.Session.{Session, Env, App, word}
use tark_os.Shell.SessionLaws.{
  IsSession, Keeps, say-IsSession, run_mkdir-Keeps, run_rmdir-Keeps, run_cp-Keeps, run_mv-Keeps,
  run_touch-Keeps, run_write-Keeps, run_append-Keeps, run_rm-Keeps,
}
use tark_os.Shell.CommandLaws.{
  run_help-Keeps, run_sysinfo-Keeps, run_about-Keeps, run_df-Keeps, run_wc-Keeps, run_cpuinfo-Keeps,
  run_calc-Keeps, run_themes-Keeps, run_echo-Keeps, run_date-Keeps, run_time-Keeps,
  run_matrix-Keeps, run_ls-Keeps, run_pwd-Keeps, run_cd-Keeps, run_cat-Keeps, run_stat-Keeps,
  run_find-Keeps, run_history-Keeps, run_tredit-Keeps, run_clear-Keeps, run_reboot-Keeps,
  run_ver-Keeps, run_pong-Keeps, run_unknown-Keeps,
}
use tark_os.Shell.DispatchLaws.{AllRows, ◌&◌, find_command-law, run_line-law}
use tark_os.Shell.Dispatch.{commands, run_line, fresh_terminal, keeps, shell_round}

commands-Keep : AllRows (λ known command. Keeps command) commands
unfolding AllRows
commands-Keep =
    run_help-Keeps & run_sysinfo-Keeps & run_about-Keeps & run_df-Keeps & run_wc-Keeps
    & run_cpuinfo-Keeps & run_calc-Keeps & run_themes-Keeps & run_echo-Keeps & run_date-Keeps
    & run_time-Keeps & run_matrix-Keeps & run_ls-Keeps & run_ls-Keeps & run_pwd-Keeps & run_cd-Keeps
    & run_mkdir-Keeps & run_rmdir-Keeps & run_cat-Keeps & run_cp-Keeps & run_mv-Keeps
    & run_touch-Keeps & run_write-Keeps & run_append-Keeps & run_stat-Keeps & run_find-Keeps
    & run_history-Keeps & run_rm-Keeps & run_tredit-Keeps & run_clear-Keeps & run_clear-Keeps
    & run_reboot-Keeps & run_ver-Keeps & run_pong-Keeps & tt

-- Every line leaves the shell in order, whatever command and arguments it holds: the cursor in the
-- text area, the table of files valid, the history in order and the current path of at most 32
-- bytes. The buffer of a destination that is not set holds what passes
-- for a file's name.
pub run_line-IsSession :
    (env : Env) (s : Session) (line : CString)
    → fs_name_valid env.unset_dest ≡ true
    → IsSession s
    → IsSession (run_line env s line).0
run_line-IsSession env s line u v =
    run_line-law (λ s s'. IsSession s → IsSession s') (λ s v. v)
      (λ s s' texts keep v. keep (say-IsSession s texts v)) env s line
      (λ s v.
        find_command-law (λ known command. Keeps command) Keeps (word (split_args 8 line) 0)
          (λ known command keep e. keep) run_unknown-Keeps commands commands-Keep env s
          (split_args 8 line) line u v)
      v

start_line-IsTerminal :
    (s : Session) → IsSession s → IsTerminal (start_line s.current_path (fresh_terminal s))
unfolding start_line
start_line-IsTerminal s v =
    let bg = s.console.colors.bg / 16 in
    let title = newline ∷ codes "[nova] " in
    let white = set_color s.console 0x0F bg in
    let c1 = print white title in
    let v1 = (print-IsValid white title (set_color-IsValid s.console 0x0F bg v.console)).0 in
    let prompt = set_color c1 s.console.colors.prompt bg in
    let c2 = print prompt s.current_path in
    let v2 =
      (print-IsValid prompt s.current_path
        (set_color-IsValid c1 s.console.colors.prompt bg v1)).0 in
    let accent = set_color c2 s.console.colors.accent bg in
    let c3 = print accent (codes " >> ") in
    let v3 =
      (print-IsValid accent (codes " >> ")
        (set_color-IsValid c2 s.console.colors.accent bg v2)).0 in
    record {
      bytes = length-replicate {A = ℕ} 64 0;
      inside = omega arith;
      history = v.history;
      back = omega arith;
      screen = set_color-IsValid c3 0x0F bg v3;
    }

keeps-IsSession : (s : Session) (t : Terminal) → IsSession s → IsTerminal t → IsSession (keeps s t)
keeps-IsSession s t v ok = record {
  console = ok.screen;
  table = v.table;
  history = ok.history;
  path = v.path;
}

abbrev InOrder : Option (Session × App) → Type 0
InOrder o = (r : Session × App) × (o ≡ some r) × IsSession r.0

-- From a shell in order, a round of the loop on any scan codes but those of F2 and F10 has a
-- result, with the shell in order again: the line is read and its command run, or it still waits
-- for keys. The buffer of a destination that is not set holds what passes
-- for a file's name.
pub shell_round-IsSession :
    (env : Env) (s : Session) (scans : List ℕ)
    → fs_name_valid env.unset_dest ≡ true
    → AllKeys scans
    → IsSession s
    → (r : Session × App) × (shell_round env s scans ≡ some r) × IsSession r.0
unfolding shell_round
shell_round-IsSession env s scans u keys v =
    let start = start_line s.current_path (fresh_terminal s) in
    let (r, e, ok) = read_keys-IsTerminal env.time start scans keys (start_line-IsTerminal s v) in
    rw (e, shell_round) (read r ok)
  where
    entered :
        (t : Terminal) (line : Option (Terminal × CString))
        → IsTerminal t
        → ((line ≡ none)
            ⊎ ((r : Terminal × CString) × (line ≡ some r) × (length r.1 < 64) × IsTerminal r.0))
        → InOrder (elim line as (λ l. Option (Session × App)) [
          | none ↦ some (keeps s t, App.no_app)
          | some (t', text) ↦ some (run_line env (keeps s t') text)
        ])
    entered t line ok (inl e) = rw e ((keeps s t, App.no_app), refl, keeps-IsSession s t v ok)
    entered t line ok (inr (r, e, fits, ok')) = rw e (
      run_line env (keeps s r.0) r.1,
      refl,
      run_line-IsSession env (keeps s r.0) r.1 u (keeps-IsSession s r.0 v ok'),
    )

    read :
        (r : Terminal × Bool)
        → IsTerminal r.0
        → InOrder (elim r.1 as (λ b. Option (Session × App)) [
          | false ↦ some (keeps s r.0, App.waits_for_keys)
          | true ↦ elim (take_line r.0) [
            | none ↦ some (keeps s r.0, App.no_app)
            | some (t', line) ↦ some (run_line env (keeps s t') line)
          ]
        ])
    read (t, false) ok = ((keeps s t, App.waits_for_keys), refl, keeps-IsSession s t v ok)
    read (t, true) ok = entered t (take_line t) ok (take_line-IsTerminal t ok)
