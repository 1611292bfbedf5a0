-- ===== src/Shell/SessionLaws.antt =====
-- kernel.c: what every command of the shell keeps in order.
use tark_os.Prelude.{◌≤◌, ◌≡◌, true, ltb, if_intro, Option-cases, inl, inr, List, [], ◌∷◌, length}
use tark_os.Text.{CString}
use tark_os.Text.Tokens.{after_n_tokens}
use tark_os.Fs.{Table, fs_name_valid}
use tark_os.Fs.Dirs.{build_path}
use tark_os.Fs.PathLaws.{build_path-valid}
use tark_os.Fs.Commands.{Reply}
use tark_os.Fs.Calls.{mv-IsValid}
use tark_os.Fs.CommandKeeps.{
  touch-keeps, write-keeps, append-keeps, rm-keeps, cp-keeps, mkdir-keeps, rmdir-keeps,
}
use tark_os.Console.{Console}
use tark_os.Fs.Invariant
use tark_os.Console.Text.{IsValid}
use tark_os.Console.Screen.{print_all-IsValid}
use tark_os.Shell.History.{IsHistory}
use tark_os.Shell.Session.{Session, Env, Command, say, answer, word, path_of}
use tark_os.Shell.FileCommands.{
  run_mkdir, run_rmdir, run_cp, run_mv, run_touch, run_write, run_append, run_rm, mkdir_message,
  rmdir_message, cp_message, mv_message, touch_message, write_message, append_message, rm_message,
}

-- The screen, the table of files and the history are in order, and the current path has at most 32
-- bytes.
pub record IsSession (s : Session) : Type 0 where
  pub console : IsValid s.console
  pub table : Invariant.IsValid s.fs_table
  pub history : IsHistory s.history
  pub path : length s.current_path ≤ 32

pub say-IsSession : (s : Session) (texts : List CString) → IsSession s → IsSession (say s texts)
unfolding say
say-IsSession s texts v = record {
  console = print_all-IsValid s.console texts v.console;
  table = v.table;
  history = v.history;
  path = v.path;
}

answer-IsSession :
    (s : Session) (message : Reply → CString) (r : Table × Reply)
    → IsSession s
    → Invariant.IsValid r.0
    → IsSession (answer s message r)
unfolding answer
answer-IsSession s message (t, reply) v table =
    say-IsSession (record s { fs_table = t }) (message reply ∷ [])
      record { console = v.console; table = table; history = v.history; path = v.path }

pub console-IsSession :
    (s : Session) (c : Console) → IsSession s → IsValid c → IsSession (record s { console = c })
console-IsSession s c v ok = record {
  console = ok;
  table = v.table;
  history = v.history;
  path = v.path;
}

-- Where an unset buffer holds what passes for a file's name, every path does.
path_of-valid :
    (unset : CString) (s : Session) (arg : CString)
    → fs_name_valid unset ≡ true
    → fs_name_valid (path_of unset s arg) ≡ true
unfolding path_of
path_of-valid unset s arg h = elim (Option-cases (build_path s.current_path arg)) [
  | inl e ↦ rw (e, path_of) h
  | inr (path, e) ↦ rw (e, path_of) (build_path-valid s.current_path arg e)
]

-- A command that keeps sessions in order.
abbrev pub Keeps : Command → Type 0
Keeps command =
    (env : Env) (s : Session) (argv : List CString) (raw_line : CString)
    → fs_name_valid env.unset_dest ≡ true
    → IsSession s
    → IsSession (command env s argv raw_line).0

pub run_mkdir-Keeps : Keeps run_mkdir
unfolding run_mkdir
run_mkdir-Keeps env s argv raw_line u v =
    if_intro IsSession (ltb (length argv) 2) _ _ (λ e. say-IsSession s _ v)
      (λ e.
        answer-IsSession s mkdir_message _ v
          (mkdir-keeps s.fs_table v.table s.current_path (word argv 1)))

pub run_rmdir-Keeps : Keeps run_rmdir
unfolding run_rmdir
run_rmdir-Keeps env s argv raw_line u v =
    if_intro IsSession (ltb (length argv) 2) _ _ (λ e. say-IsSession s _ v)
      (λ e.
        answer-IsSession s rmdir_message _ v
          (rmdir-keeps s.fs_table v.table s.current_path (word argv 1)))

pub run_cp-Keeps : Keeps run_cp
unfolding run_cp
run_cp-Keeps env s argv raw_line u v =
    if_intro IsSession (ltb (length argv) 3) _ _ (λ e. say-IsSession s _ v)
      (λ e. answer-IsSession s cp_message _ v (
        cp-keeps s.fs_table v.table (path_of env.unset s (word argv 1))
          (path_of env.unset_dest s (word argv 2))))

pub run_mv-Keeps : Keeps run_mv
unfolding run_mv
run_mv-Keeps env s argv raw_line u v =
    if_intro IsSession (ltb (length argv) 3) _ _ (λ e. say-IsSession s _ v)
      (λ e. answer-IsSession s mv_message _ v (
        mv-IsValid s.fs_table (path_of env.unset s (word argv 1))
          (path_of env.unset_dest s (word argv 2)) (path_of-valid env.unset_dest s (word argv 2) u)
          v.table))

pub run_touch-Keeps : Keeps run_touch
unfolding run_touch
run_touch-Keeps env s argv raw_line u v =
    if_intro IsSession (ltb (length argv) 2) _ _ (λ e. say-IsSession s _ v)
      (λ e.
        answer-IsSession s touch_message _ v
          (touch-keeps s.fs_table v.table (path_of env.unset s (word argv 1))))

pub run_write-Keeps : Keeps run_write
unfolding run_write
run_write-Keeps env s argv raw_line u v =
    if_intro IsSession (ltb (length argv) 3) _ _ (λ e. say-IsSession s _ v)
      (λ e. answer-IsSession s write_message _ v (
        write-keeps s.fs_table v.table (path_of env.unset s (word argv 1))
          (after_n_tokens raw_line 2)))

pub run_append-Keeps : Keeps run_append
unfolding run_append
run_append-Keeps env s argv raw_line u v =
    if_intro IsSession (ltb (length argv) 3) _ _ (λ e. say-IsSession s _ v)
      (λ e. answer-IsSession s append_message _ v (
        append-keeps s.fs_table v.table (path_of env.unset s (word argv 1))
          (after_n_tokens raw_line 2)))

pub run_rm-Keeps : Keeps run_rm
unfolding run_rm
run_rm-Keeps env s argv raw_line u v =
    if_intro IsSession (ltb (length argv) 2) _ _ (λ e. say-IsSession s _ v)
      (λ e.
        answer-IsSession s rm_message _ v
          (rm-keeps s.fs_table v.table (path_of env.unset s (word argv 1))))
