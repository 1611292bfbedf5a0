-- ===== src/Shell/DispatchLaws.antt =====
-- kernel.c: what holds of every command holds of every line of the shell.
use tark_os.Prelude.{
  ◌≡◌, Bool, true, false, ltb, if◌then◌else◌, if_intro, Option, none, some, List, [], ◌∷◌, length,
  codes,
}
use tark_os.Text.{CString, str_eq}
use tark_os.Text.Tokens.{split_args}
use tark_os.Shell.Help.{command_desc, command_runs_without_args}
use tark_os.Shell.Session.{Session, Env, App, Command, say, word}
use tark_os.Shell.InfoCommands.{run_unknown}
use tark_os.Shell.Dispatch.{commands, find_command, run_described, run_line}

-- A law for each row of the table of commands.
unfoldable pub AllRows : (CString → Command → Type 0) → List (CString × Command) → Type 0
AllRows P [] = Unit
AllRows P ((known, command) ∷ rows) = P known command × AllRows P rows

infixr 40 ◌&◌
abbrev pub ◌&◌ : {A B : Type 0} → A → B → A × B
a & b = (a, b)

-- The command of a name has the law `Q`, if `run_unknown` has it and each row gives it to its own
-- name.
pub find_command-law :
    (P : CString → Command → Type 0) (Q : Command → Type 0) (name : CString)
    → ((known : CString) (command : Command)
        → P known command
        → str_eq name known ≡ true
        → Q command)
    → Q run_unknown
    → (rows : List (CString × Command)) → AllRows P rows
    → Q (find_command rows name)
unfolding find_command AllRows
find_command-law P Q name row unknown [] all = unknown
find_command-law P Q name row unknown ((known, command) ∷ rows) (first, all) =
    if_intro Q (str_eq name known) _ _ (λ e. row known command first e)
      (λ e. find_command-law P Q name row unknown rows all)

-- `R s s'`: a command that starts in `s` may end in `s'`. Printing before a command is allowed.
module _ (R : Session → Session → Type 0) (stays : (s : Session) → R s s)
    (says : (s s' : Session) (texts : List CString) → R (say s texts) s' → R s s') (env : Env) where
  described-law :
      (s : Session) (argv : List CString) (raw_line : CString)
      → ((s : Session) → R s (find_command commands (word argv 0) env s argv raw_line).0)
      → R s (run_described env s argv raw_line).0
  unfolding run_described
  described-law s argv raw_line law =
      described (if ltb (length argv) 2 then command_desc (word argv 0) else none)
    where
      told :
          (desc : CString) (runs : Bool)
          → R s
              (elim runs as (λ b. Session × App) [
                | true ↦
                    find_command commands
                      (word argv 0)
                      env
                      (say s (desc ∷ codes "\n" ∷ []))
                      argv
                      raw_line
                | false ↦ (say s (desc ∷ codes "\n" ∷ []), App.no_app)
              ]).0
      told desc true = says s _ (desc ∷ codes "\n" ∷ []) (law (say s (desc ∷ codes "\n" ∷ [])))
      told desc false = says s _ (desc ∷ codes "\n" ∷ []) (stays (say s (desc ∷ codes "\n" ∷ [])))

      described :
          (desc : Option CString)
          → R s
              (elim desc as (λ d. Session × App) [
                | none ↦ find_command commands (word argv 0) env s argv raw_line
                | some text ↦ elim (command_runs_without_args (word argv 0)) [
                  | true ↦
                      find_command commands
                        (word argv 0)
                        env
                        (say s (text ∷ codes "\n" ∷ []))
                        argv
                        raw_line
                  | false ↦ (say s (text ∷ codes "\n" ∷ []), App.no_app)
                ]
              ]).0
      described none = law s
      described (some text) = told text (command_runs_without_args (word argv 0))

  pub run_line-law :
      (s : Session) (line : CString)
      → ((s : Session)
          → R s
              (find_command commands (word (split_args 8 line) 0) env s (split_args 8 line) line).0)
      → R s (run_line env s line).0
  unfolding run_line
  run_line-law s line = split (split_args 8 line)
    where
      split :
          (argv : List CString)
          → ((s : Session) → R s (find_command commands (word argv 0) env s argv line).0)
          → R s
              (elim argv as (λ a. Session × App) [
                | [] ↦ (s, App.no_app)
                | name ∷ args ↦ run_described env s (name ∷ args) line
              ]).0
      split [] law = stays s
      split (name ∷ args) law = described-law s (name ∷ args) line law
