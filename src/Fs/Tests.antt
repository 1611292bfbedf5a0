-- ===== src/Fs/Tests.antt =====
-- Runs of the RAM disk, on the table of `fs_init`.
use tark_os.Prelude.{ℕ, zero, suc, ◌≡◌, ◌≢◌, refl, ap, arith, true, false}
use tark_os.Prelude.{none, some, [], ◌∷◌, codes}
use tark_os.Prelude.Int.{pos}
use tark_os.Text.{str_eq, slash}
use tark_os.Fs.{fs_init, fs_find_file, fs_name_valid, fs_delete_file, fs_used_files}
use tark_os.Fs.Lookup.{lookup}
use tark_os.Fs.Invariant.{IsValid}
use tark_os.Fs.Map.{view, Writes, write_file-Writes}
use tark_os.Fs.Change.{is_some, Appends, append_file-Appends}
use tark_os.Fs.Dirs.{strip_slashes, fs_mkdir, build_path}
use tark_os.Fs.PathLaws.{HasNoSlash}
use tark_os.Fs.Commands.{done, touch, write, append, rm, cp, mv, mkdir, rmdir}
use tark_os.Fs.Errors.{DoneOrSame, commands-DoneOrSame}
use tark_os.Fs.CommandLaws.{Moves, mv-Moves}
use tark_os.Fs.Calls.{Step, booted, next, init-IsValid, from_init-IsValid}

first_files : fs_used_files fs_init ≡ 2
unfolding fs_init fs_used_files
first_files = refl

test_file : fs_find_file fs_init (codes "test.txt") ≡ some 1
unfolding fs_init fs_find_file str_eq
test_file = refl

-- A file without a name is not made, and `touch` says that it was.
touch_no_name : touch fs_init [] ≡ (fs_init, done)
unfolding touch
touch_no_name = refl

write_file-Writes_example : Writes fs_init (codes "a") (codes "one") (pos 3)
unfolding fs_name_valid
write_file-Writes_example =
    write_file-Writes fs_init (codes "a") (codes "one") (pos 3) init-IsValid refl (omega arith)

append_file-Appends_example : Appends fs_init (codes "test.txt") (codes "one") 3
append_file-Appends_example =
    append_file-Appends fs_init (codes "test.txt") (codes "one") 3 init-IsValid (omega arith)

mkdir_docs : (fs_mkdir fs_init (codes "docs/")).1 ≡ true
unfolding fs_mkdir fs_init str_eq
mkdir_docs = refl

some_path : strip_slashes (codes "docs/") ≢ []
unfolding strip_slashes
some_path = cc

in_docs : build_path (codes "/docs") (codes "a.txt") ≡ some (codes "docs/a.txt")
unfolding build_path str_eq
in_docs = refl

plain : (c : ℕ) → c ≢ slash → HasNoSlash (c ∷ [])
plain c ne zero = ne
plain c ne (suc j) = cc

from_test : view fs_init (codes "test.txt") ≢ none
unfolding fs_init lookup str_eq
from_test e = let impossible : true ≡ false = ap is_some e in cc impossible

to_new : view fs_init (codes "new") ≡ none
unfolding fs_init lookup str_eq
to_new = refl

mv-Moves_example :
    ((mv fs_init (codes "test.txt") (codes "new")).1 ≡ done)
    × Moves fs_init (codes "test.txt") (codes "new") (mv fs_init (codes "test.txt") (codes "new")).0
mv-Moves_example =
    mv-Moves fs_init (codes "test.txt") (codes "new") init-IsValid from_test to_new (omega arith)

from_init-IsValid_example :
    IsValid (fs_delete_file (fs_mkdir fs_init (codes "docs")).0 (codes "a")).0
from_init-IsValid_example =
    from_init-IsValid
      (next (next booted (Step.mkdir (codes "docs"))) (Step.delete_file (codes "a")))

commands-DoneOrSame_example :
    DoneOrSame fs_init (touch fs_init (codes "a"))
    × DoneOrSame fs_init (write fs_init (codes "a") (codes "one"))
    × DoneOrSame fs_init (append fs_init (codes "a") (codes "one"))
    × DoneOrSame fs_init (rm fs_init (codes "a"))
    × DoneOrSame fs_init (cp fs_init (codes "a") (codes "b"))
    × DoneOrSame fs_init (mv fs_init (codes "a") (codes "b"))
    × DoneOrSame fs_init (mkdir fs_init (codes "a") (codes "b"))
    × DoneOrSame fs_init (rmdir fs_init (codes "a") (codes "b"))
commands-DoneOrSame_example = commands-DoneOrSame fs_init (codes "a") (codes "b") (codes "one")
