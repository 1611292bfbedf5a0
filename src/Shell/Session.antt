-- ===== src/Shell/Session.antt =====
-- kernel.c: what the commands of `shell_loop` work on, and their answers. A command is given the
-- words of the line, `argv`, and the line as it was typed, `raw_line`. The matrix, the game, the
-- editor and the reset of the machine are not run here but named by what a command starts.
use tark_os.Prelude.{ℕ, Bool, none, some, List, [], ◌∷◌, get_or}
use tark_os.Prelude.Int.{pos}
use tark_os.Text.{CString}
use tark_os.Clib.Number.{kernel_itoa}
use tark_os.Fs.{Table}
use tark_os.Fs.Dirs.{build_path}
use tark_os.Fs.Commands.{Reply}
use tark_os.Console.{Console}
use tark_os.Console.Screen.{print_all}
use tark_os.Shell.History.{History}

pub record Session : Type 0 where
  pub console : Console
  pub fs_table : Table
  pub current_path : CString
  pub history : History
  pub shift : Bool

-- What one line reads of the machine: the strings of the clock, the first result of `cpuid`, and the
-- strings that the command's own buffers hold where `build_path` has not set them: `path` or
-- `src_path`, and `dest_path`.
pub record Env : Type 0 where
  pub time : CString
  pub date : CString
  pub cpuid : ℕ
  pub unset : CString
  pub unset_dest : CString

pub data App : Type 0 where
  no_app waits_for_keys effect_matrix game_pong reboot : App
  tredit : CString → App

abbrev pub Command : Type 0
Command = Env → Session → List CString → CString → Session × App

-- Calls of `print`, one after another.
unfoldable pub say : Session → List CString → Session
say s texts = record s { console = print_all s.console texts }

abbrev pub word : List CString → ℕ → CString
word argv i = get_or argv i []

abbrev pub number : ℕ → CString
number n = kernel_itoa (pos n)

-- A buffer that held the string `unset`, after `build_path`, whose result is not looked at.
unfoldable pub path_of : CString → Session → CString → CString
path_of unset s arg = elim (build_path s.current_path arg) [ none ↦ unset | some path ↦ path ]

-- What a command on files leaves, and its message.
unfoldable pub answer : Session → (Reply → CString) → Table × Reply → Session
answer s message (t, reply) = say (record s { fs_table = t }) (message reply ∷ [])
