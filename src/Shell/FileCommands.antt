-- ===== src/Shell/FileCommands.antt =====
-- kernel.c: the commands of `shell_loop` that change files or directories, with what they print.
use tark_os.Prelude.{◌==◌, ltb, if◌then◌else◌, List, [], ◌∷◌, length, codes}
use tark_os.Text.{CString}
use tark_os.Text.Tokens.{after_n_tokens}
use tark_os.Fs.Commands.{Reply}
use tark_os.Fs.Commands
use tark_os.Shell.Session.{App, Command, say, answer, word, path_of}

abbrev pub mkdir_message : Reply → CString
mkdir_message Reply.done = codes "Directory created.\n"
mkdir_message Reply.bad_path = codes "Error: Invalid path.\n"
mkdir_message r = codes "Error: Unable to create directory.\n"

unfoldable pub run_mkdir : Command
run_mkdir env s argv raw_line = (
  (if ltb (length argv) 2
      then say s (codes "Usage: mkdir <dirname>\n" ∷ [])
      else answer s mkdir_message (Commands.mkdir s.fs_table s.current_path (word argv 1))),
  App.no_app,
)

abbrev pub rmdir_message : Reply → CString
rmdir_message Reply.done = codes "Directory removed.\n"
rmdir_message Reply.bad_path = codes "Error: Invalid path.\n"
rmdir_message r = codes "Error: Directory not found.\n"

unfoldable pub run_rmdir : Command
run_rmdir env s argv raw_line = (
  (if ltb (length argv) 2
      then say s (codes "Usage: rmdir <dirname>\n" ∷ [])
      else answer s rmdir_message (Commands.rmdir s.fs_table s.current_path (word argv 1))),
  App.no_app,
)

abbrev pub cp_message : Reply → CString
cp_message Reply.done = codes "Copied.\n"
cp_message Reply.not_found = codes "Source not found.\n"
cp_message r = codes "Error: No space.\n"

unfoldable pub run_cp : Command
run_cp env s argv raw_line = (
  (if ltb (length argv) 3
      then say s (codes "Usage: cp <src> <dest>\n" ∷ [])
      else answer s cp_message (
          Commands.cp s.fs_table (path_of env.unset s (word argv 1))
            (path_of env.unset_dest s (word argv 2)))),
  App.no_app,
)

abbrev pub mv_message : Reply → CString
mv_message Reply.done = codes "Moved.\n"
mv_message Reply.not_found = codes "Source not found.\n"
mv_message r = codes "Error: Destination exists.\n"

unfoldable pub run_mv : Command
run_mv env s argv raw_line = (
  (if ltb (length argv) 3
      then say s (codes "Usage: mv <src> <dest>\n" ∷ [])
      else answer s mv_message (
          Commands.mv s.fs_table (path_of env.unset s (word argv 1))
            (path_of env.unset_dest s (word argv 2)))),
  App.no_app,
)

abbrev pub touch_message : Reply → CString
touch_message Reply.done = codes "File created.\n"
touch_message r = codes "Error: No space.\n"

unfoldable pub run_touch : Command
run_touch env s argv raw_line = (
  (if ltb (length argv) 2
      then say s (codes "Usage: touch <filename>\n" ∷ [])
      else answer s touch_message (Commands.touch s.fs_table (path_of env.unset s (word argv 1)))),
  App.no_app,
)

abbrev pub write_message : Reply → CString
write_message Reply.done = codes "Written.\n"
write_message r = codes "Error: No space.\n"

unfoldable pub run_write : Command
run_write env s argv raw_line = (
  (if ltb (length argv) 3
      then say s (codes "Usage: write <filename> <text>\n" ∷ [])
      else answer s write_message (
          Commands.write s.fs_table (path_of env.unset s (word argv 1))
            (after_n_tokens raw_line 2))),
  App.no_app,
)

abbrev pub append_message : Reply → CString
append_message Reply.done = codes "Appended.\n"
append_message r = codes "Error: File not found.\n"

unfoldable pub run_append : Command
run_append env s argv raw_line = (
  (if ltb (length argv) 3
      then say s (codes "Usage: append <filename> <text>\n" ∷ [])
      else answer s append_message (
          Commands.append s.fs_table (path_of env.unset s (word argv 1))
            (after_n_tokens raw_line 2))),
  App.no_app,
)

abbrev pub rm_message : Reply → CString
rm_message Reply.done = codes "File deleted.\n"
rm_message r = codes "Error: File not found.\n"

unfoldable pub run_rm : Command
run_rm env s argv raw_line = (
  (if ltb (length argv) 2
      then say s (codes "Usage: rm <filename>\n" ∷ [])
      else answer s rm_message (Commands.rm s.fs_table (path_of env.unset s (word argv 1)))),
  App.no_app,
)

-- The reply of `cd` is an error only where there is no such directory.
abbrev pub cd_texts : Reply → List CString
cd_texts Reply.done = []
cd_texts r = codes "Error: Directory not found.\n" ∷ []

unfoldable pub run_cd : Command
run_cd env s argv raw_line =
    let (path, reply) = Commands.cd s.fs_table s.current_path (word argv 1) in
    (
      (if length argv == 1
          then say s (s.current_path ∷ codes "\n" ∷ [])
          else say (record s { current_path = path }) (cd_texts reply)),
      App.no_app,
    )

-- The editor is given the path.
unfoldable pub run_tredit : Command
run_tredit env s argv raw_line =
    if ltb (length argv) 2
    then (say s (codes "Usage: tredit <filename>\n" ∷ []), App.no_app)
    else (s, App.tredit (path_of env.unset s (word argv 1)))
