-- ===== src/Shell/CommandLaws.antt =====
-- kernel.c: a line of the shell, and a round of its loop, keep the shell in order.
use tark_os.Prelude.{
  ℕ, ◌/◌, ◌≤◌, ◌&&◌, ◌==◌, ltb, if◌then◌else◌, if_intro, Option, none, some, [], ◌∷◌, length, codes,
}
use tark_os.Text.{CString, str_eq, slash}
use tark_os.Text.Tokens.{after_n_tokens}
use tark_os.Fs.Dirs.{base_of, skip_slash, build_path}
use tark_os.Fs.PathBounds.{cd-short}
use tark_os.Fs.Commands.{Reply}
use tark_os.Fs.Commands
use tark_os.Console.{set_color, set_theme}
use tark_os.Console.Screen.{set_color-IsValid, clear_screen-IsValid, set_theme-IsValid}
use tark_os.Shell.Listing.{ls_current_dir, ls_dir_path}
use tark_os.Shell.ListingLaws.{list_prefix-IsValid}
use tark_os.Shell.Session.{Session, App, say, word}
use tark_os.Shell.FileCommands.{run_cd, run_tredit, cd_texts}
use tark_os.Shell.InfoCommands.{
  run_help, run_sysinfo, run_about, run_df, run_wc, run_cpuinfo, run_calc, run_themes, run_echo,
  run_date, run_time, run_matrix, run_ls, run_pwd, run_cat, run_stat, run_find, run_history,
  run_clear, run_reboot, run_ver, run_pong, run_unknown, color, theme,
}
use tark_os.Shell.SessionLaws.{IsSession, Keeps, say-IsSession, console-IsSession}

color-IsSession : (s : Session) (fg : ℕ) → IsSession s → IsSession (color s fg)
color-IsSession s fg v =
    console-IsSession s (set_color s.console fg (s.console.colors.bg / 16)) v
      (set_color-IsValid s.console fg (s.console.colors.bg / 16) v.console)

theme-IsSession : (s : Session) (n : ℕ) → IsSession s → IsSession (theme s n)
theme-IsSession s n v =
    console-IsSession s (set_theme s.console n) v (set_theme-IsValid s.console n v.console)

pub run_help-Keeps : Keeps run_help
unfolding run_help
run_help-Keeps env s argv raw_line u v = say-IsSession (color _ 0x0F) _ (
    color-IsSession _ 0x0F (
      say-IsSession (color s s.console.colors.accent) _
        (color-IsSession s s.console.colors.accent v)))

pub run_sysinfo-Keeps : Keeps run_sysinfo
unfolding run_sysinfo
run_sysinfo-Keeps env s argv raw_line u v = say-IsSession s _ v

pub run_about-Keeps : Keeps run_about
unfolding run_about
run_about-Keeps env s argv raw_line u v = say-IsSession s _ v

pub run_df-Keeps : Keeps run_df
unfolding run_df
run_df-Keeps env s argv raw_line u v = say-IsSession s _ v

pub run_wc-Keeps : Keeps run_wc
unfolding run_wc
run_wc-Keeps env s argv raw_line u v = say-IsSession s _ v

pub run_cpuinfo-Keeps : Keeps run_cpuinfo
unfolding run_cpuinfo
run_cpuinfo-Keeps env s argv raw_line u v = say-IsSession s _ v

pub run_calc-Keeps : Keeps run_calc
unfolding run_calc
run_calc-Keeps env s argv raw_line u v = say-IsSession s _ v

pub run_date-Keeps : Keeps run_date
unfolding run_date
run_date-Keeps env s argv raw_line u v = say-IsSession s _ v

pub run_time-Keeps : Keeps run_time
unfolding run_time
run_time-Keeps env s argv raw_line u v = say-IsSession s _ v

pub run_pwd-Keeps : Keeps run_pwd
unfolding run_pwd
run_pwd-Keeps env s argv raw_line u v = say-IsSession s _ v

pub run_cat-Keeps : Keeps run_cat
unfolding run_cat
run_cat-Keeps env s argv raw_line u v = say-IsSession s _ v

pub run_stat-Keeps : Keeps run_stat
unfolding run_stat
run_stat-Keeps env s argv raw_line u v = say-IsSession s _ v

pub run_find-Keeps : Keeps run_find
unfolding run_find
run_find-Keeps env s argv raw_line u v = say-IsSession s _ v

pub run_history-Keeps : Keeps run_history
unfolding run_history
run_history-Keeps env s argv raw_line u v = say-IsSession s _ v

pub run_ver-Keeps : Keeps run_ver
unfolding run_ver
run_ver-Keeps env s argv raw_line u v = say-IsSession s _ v

pub run_unknown-Keeps : Keeps run_unknown
unfolding run_unknown
run_unknown-Keeps env s argv raw_line u v = say-IsSession s _ v

pub run_matrix-Keeps : Keeps run_matrix
unfolding run_matrix
run_matrix-Keeps env s argv raw_line u v = v

pub run_reboot-Keeps : Keeps run_reboot
unfolding run_reboot
run_reboot-Keeps env s argv raw_line u v = v

pub run_pong-Keeps : Keeps run_pong
unfolding run_pong
run_pong-Keeps env s argv raw_line u v = v

pub run_tredit-Keeps : Keeps run_tredit
unfolding run_tredit
run_tredit-Keeps env s argv raw_line u v =
    if_intro (λ (r : Session × App). IsSession r.0) (ltb (length argv) 2) _ _
      (λ e. say-IsSession s _ v) (λ e. v)

pub run_echo-Keeps : Keeps run_echo
unfolding run_echo
run_echo-Keeps env s argv raw_line u v =
    if_intro IsSession (length (after_n_tokens raw_line 1) == 0) _ _ (λ e. v)
      (λ e. say-IsSession s (after_n_tokens raw_line 1 ∷ codes "\n" ∷ []) v)

pub run_clear-Keeps : Keeps run_clear
unfolding run_clear
run_clear-Keeps env s argv raw_line u v =
    console-IsSession s _ v (clear_screen-IsValid s.console v.console.screen)

pub run_themes-Keeps : Keeps run_themes
unfolding run_themes
run_themes-Keeps env s argv raw_line u v =
    let is = λ (name : CString). length argv == 2 && str_eq (word argv 1) name in
    if_intro IsSession (is (codes "dark")) _ _ (λ e. theme-IsSession s 0 v)
      (λ e.
        if_intro IsSession (is (codes "neon")) _ _ (λ e. theme-IsSession s 1 v)
          (λ e.
            if_intro IsSession (is (codes "classic")) _ _ (λ e. theme-IsSession s 2 v)
              (λ e. say-IsSession s (codes "Usage: themes [dark|neon|classic]\n" ∷ []) v)))

ls_dir_path-IsSession :
    (s : Session) (path : CString)
    → IsSession s
    → IsSession (record s { console = (ls_dir_path path s.fs_table s.console).0 })
unfolding ls_dir_path
ls_dir_path-IsSession s path v = console-IsSession s _ v (
    list_prefix-IsValid (if str_eq path (slash ∷ []) then [] else skip_slash path) s.fs_table
      s.console v.console)

ls_current_dir-IsSession :
    (s : Session)
    → IsSession s
    → IsSession (record s { console = (ls_current_dir s.current_path s.fs_table s.console).0 })
unfolding ls_current_dir
ls_current_dir-IsSession s v =
    console-IsSession s _ v
      (list_prefix-IsValid (base_of s.current_path) s.fs_table s.console v.console)

pub run_ls-Keeps : Keeps run_ls
unfolding run_ls
run_ls-Keeps env s argv raw_line u v =
    if_intro IsSession (length argv == 1) _ _ (λ e. ls_current_dir-IsSession s v)
      (λ e.
        if_intro IsSession (str_eq (word argv 1) (slash ∷ [])) _ _
          (λ e. ls_dir_path-IsSession s (slash ∷ []) v)
          (λ e. listed (build_path s.current_path (word argv 1))))
  where
    listed :
        (path : Option CString)
        → IsSession (elim path [
          | none ↦ say s (codes "Error: Invalid path.\n" ∷ [])
          | some p ↦ record s { console = (ls_dir_path p s.fs_table s.console).0 }
        ])
    listed none = say-IsSession s _ v
    listed (some p) = ls_dir_path-IsSession s p v

pub run_cd-Keeps : Keeps run_cd
unfolding run_cd
run_cd-Keeps env s argv raw_line u v =
    if_intro IsSession (length argv == 1) _ _ (λ e. say-IsSession s _ v)
      (λ e.
        moved (Commands.cd s.fs_table s.current_path (word argv 1))
          (cd-short s.fs_table s.current_path (word argv 1) v.table v.path))
  where
    moved :
        (r : CString × Reply)
        → length r.0 ≤ 32
        → IsSession (say (record s { current_path = r.0 }) (cd_texts r.1))
    moved r short =
        say-IsSession (record s { current_path = r.0 }) (cd_texts r.1)
          record { console = v.console; table = v.table; history = v.history; path = short }
