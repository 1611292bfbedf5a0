-- ===== src/Shell/ReadLaws.antt =====
-- kernel.c: the commands of the shell that leave the files alone.
use tark_os.Prelude.{◌≡◌, true, List, [], ◌∷◌, codes, ◌⊎◌}
use tark_os.Text.{CString}
use tark_os.Text.Tokens.{split_args}
use tark_os.Shell.Help.{is_among}
use tark_os.Shell.Session.{Session, Env, Command, word}

-- The table and the history stay.
abbrev pub SameFiles : Session → Session → Type 0
SameFiles s s' = (s'.fs_table ≡ s.fs_table) × (s'.history ≡ s.history)

abbrev Reads : Command → Type 0
Reads command =
    (env : Env) (s : Session) (argv : List CString) (raw_line : CString)
    → SameFiles s (command env s argv raw_line).0

-- The commands that write files or directories, or start the editor, which does.
abbrev pub writers : List CString
writers =
    codes "mkdir"
    ∷ codes "rmdir"
    ∷ codes "cp"
    ∷ codes "mv"
    ∷ codes "touch"
    ∷ codes "write"
    ∷ codes "append"
    ∷ codes "rm"
    ∷ codes "tredit"
    ∷ []

-- A command that leaves the files alone, or the name of one that may not.
abbrev ReadsOrWrites : CString → Command → Type 0
ReadsOrWrites known command = (is_among writers known ≡ true) ⊎ Reads command

-- The first word of a line; nothing, where the line has none.
abbrev pub first_word : CString → CString
first_word line = word (split_args 8 line) 0
