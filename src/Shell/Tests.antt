-- ===== src/Shell/Tests.antt =====
-- Runs of the shell's keys, its editor, and its history.
use tark_os.Prelude.{ℕ, ◌+◌, ◌<◌, ◌≡◌, refl, arith, true, false, none, some}
use tark_os.Prelude.{[], ◌∷◌, replicate, length-replicate, get_or-replicate_self, codes}
use tark_os.Prelude.{List, drop, get_or, ◌⊎◌}
use tark_os.Prelude.Int.{pos, ◌+ℤ◌}
use tark_os.Text.{CString, str_eq}
use tark_os.Text.Tokens.{calc_eval, after_n_tokens}
use tark_os.Fs.Dirs.{build_path}
use tark_os.Shell.Listing.{entry_of}
use tark_os.Shell.ListingLaws.{any_gives}
use tark_os.Shell.History.{AllShort}
use tark_os.Shell.Session.{Session, Env, App, say, word}
use tark_os.Shell.FileCommands.{run_write}
use tark_os.Shell.InfoCommands.{run_cat}
use tark_os.Shell.SessionLaws.{IsSession}
use tark_os.Shell.Boot.{kmain}
use tark_os.Shell.BootLaws.{kmain-IsSession}
use tark_os.Shell.CatLaws.{HasNoNul, run_cat-run_write}
use tark_os.Fs.{fs_init, fs_name_valid, max_files, file_at}
use tark_os.Fs.Map.{view}
use tark_os.Fs.Calls.{init-IsValid}
use tark_os.Console.{Console, initial_colors}
use tark_os.Shell.{scancode_to_char}
use tark_os.Shell.Editor.{Editor, type_char, press, press_all}
use tark_os.Shell.EditorLaws.{
  text, IsEditor, typed, text-type_char, Saves, press-Saves, press_all-enter,
}
use tark_os.Shell.History.{History, IsHistory, remember, shown, kept, shown-remember}
use tark_os.Shell.Help.{command_desc, runs_alone}
use tark_os.Shell.Line.{Terminal}
use tark_os.Shell.LineLaws.{IsTerminal}

letter : scancode_to_char 0x1E true ≡ some 65
unfolding scancode_to_char
letter = refl

behind_table : scancode_to_char 0x3C false ≡ none
unfolding scancode_to_char
behind_table = refl

-- The key Down is a character of the editor.
down :
    (type_char
      (record {
        edit_buffer = 0 ∷ 0 ∷ [];
        ptr = 0;
        run = true;
        shift = false;
        redraw = false;
        fs_table = [];
      })
      254).edit_buffer
    ≡ 254 ∷ 0 ∷ []
unfolding type_char
down = refl

alone : runs_alone (codes "wc") ≡ false
unfolding runs_alone command_desc
alone = refl

-- An editor with an empty text.
abbrev empty : Editor
empty = record {
  edit_buffer = replicate 2048 0;
  ptr = 0;
  run = true;
  shift = false;
  redraw = true;
  fs_table = fs_init;
}

empty-IsEditor : IsEditor empty
empty-IsEditor = record { buffer = length-replicate {A = ℕ} 2048 0; inside = omega arith }

text-type_char_example : text (type_char empty 97) ≡ typed (text empty) 97
text-type_char_example = text-type_char empty 97 empty-IsEditor

note_name : fs_name_valid (codes "note") ≡ true
unfolding fs_name_valid
note_name = refl

press-Saves_example :
    Saves (codes "note") empty (press (codes "note") empty 0x3C).fs_table
    × (text (press (codes "note") empty 0x3C) ≡ text empty)
press-Saves_example = press-Saves (codes "note") empty empty-IsEditor init-IsValid note_name

press_all-enter_example : (press_all (codes "note") empty (replicate 2049 0x1C)).ptr ≡ 0 + 2049
press_all-enter_example = press_all-enter (codes "note") empty 2049 refl

abbrev no_history : History
no_history = record { history_buf = replicate 8 []; history_count = 0 }

no_history-IsHistory : IsHistory no_history
no_history-IsHistory = record {
  places = refl;
  count = omega arith;
  short = λ i.
      let none_there = get_or-replicate_self {A = CString} 8 i [] in rw none_there (omega arith);
}

shown-remember_example :
    shown (remember no_history (codes "ls")) ≡ kept (shown no_history) (codes "ls")
shown-remember_example = shown-remember no_history (codes "ls") no_history-IsHistory

-- A terminal with an empty line.
abbrev ready : Terminal
ready = record {
  console = record {
    vga = replicate 2000 0;
    current_x = 0;
    current_y = 1;
    colors = initial_colors;
    current_col = 0x1F;
    last_time = [];
    cursor = 80;
  };
  line = replicate 64 0;
  pos = 0;
  shift = false;
  history_pos = 0;
  history = no_history;
}

ready-IsTerminal : IsTerminal ready
ready-IsTerminal = record {
  bytes = refl;
  inside = omega arith;
  history = no_history-IsHistory;
  back = omega arith;
  screen = record {
    screen = length-replicate {A = ℕ} 2000 0;
    column = omega arith;
    below_header = omega arith;
    above_footer = omega arith;
    shown = omega arith;
  };
}

-- A blank in front of `calc` is taken for a part of the name, and the sum is not read.
sum : calc_eval (drop 4 (codes "calc 1+2")) ≡ some (pos 3)
unfolding calc_eval ◌+ℤ◌
sum = refl

sum_behind_blank : calc_eval (drop 4 (codes " calc 1+2")) ≡ none
unfolding calc_eval
sum_behind_blank = refl

abbrev screen : Console
screen = record {
  vga = replicate 2000 0;
  current_x = 0;
  current_y = 1;
  colors = initial_colors;
  current_col = 0x1F;
  last_time = [];
  cursor = 80;
}

root_entries : any_gives [] (codes "test.txt") fs_init ≡ true
unfolding any_gives fs_init entry_of str_eq
root_entries = refl

abbrev env : Env
env = record {
  time = codes "12:00:00";
  date = codes "2026-01-30";
  cpuid = 1;
  unset = codes "x";
  unset_dest = codes "y";
}

abbrev other_env : Env
other_env = record {
  time = codes "12:01:00";
  date = codes "2026-01-30";
  cpuid = 1;
  unset = codes "z";
  unset_dest = [];
}

abbrev no_lines : List CString
no_lines = replicate 8 []

no_lines-AllShort : AllShort no_lines
no_lines-AllShort i =
    let none_there : get_or no_lines i [] ≡ [] = get_or-replicate_self 8 i [] in
    rw none_there (omega arith)

abbrev started : Session
started = kmain screen no_lines

started-IsSession : IsSession started
started-IsSession =
    kmain-IsSession screen no_lines (length-replicate {A = ℕ} 2000 0)
      (length-replicate {A = CString} 8 []) no_lines-AllShort

-- The keys L, S and Enter.
abbrev ls_keys : List ℕ
ls_keys = 0x26 ∷ 0x1F ∷ 0x1C ∷ []

abbrev write_line : CString
write_line = codes "write notes hello"

hello : after_n_tokens write_line 2 ≡ codes "hello"
unfolding after_n_tokens
hello = refl

hello-HasNoNul : HasNoNul (codes "hello")
unfolding HasNoNul
hello-HasNoNul = (
  (λ e. absurd (omega arith)),
  (
    (λ e. absurd (omega arith)),
    ((λ e. absurd (omega arith)), ((λ e. absurd (omega arith)), ((λ e. absurd (omega arith)), tt))),
  ),
)

abbrev write_words : List CString
write_words = codes "write" ∷ codes "notes" ∷ codes "hello" ∷ []

abbrev cat_words : List CString
cat_words = codes "cat" ∷ codes "notes" ∷ []

notes_path : build_path started.current_path (word cat_words 1) ≡ some (codes "notes")
unfolding build_path kmain str_eq
notes_path = refl

run_cat-run_write_example :
    ((view started.fs_table (codes "notes") ≡ none)
      × ((j : ℕ) → j < max_files → (file_at started.fs_table j).used ≡ true)
      × ((run_write env started write_words write_line).0
          ≡ say started (codes "Error: No space.\n" ∷ [])))
    ⊎ (run_cat other_env
          (run_write env started write_words write_line).0
          cat_words
          (codes "cat notes")
        ≡ (
          say
              (run_write env started write_words write_line).0
              (after_n_tokens write_line 2 ∷ codes "\n" ∷ []),
          App.no_app,
        ))
run_cat-run_write_example =
    run_cat-run_write env other_env started write_words cat_words write_line (codes "cat notes")
      (codes "notes") started-IsSession (omega arith) (omega arith) refl notes_path
      (rw hello (omega arith)) (rw hello hello-HasNoNul)
