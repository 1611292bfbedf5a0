-- ===== src/Shell/ShownLaws.antt =====
-- kernel.c: what the lists of `ls` show and print, of the files under a directory.
use tark_os.Prelude.{ℕ, ◌<◌, ◌≡◌, ◌↔◌, Bool, true, List, [], ◌∷◌, ◌++◌, map, length, codes}
use tark_os.Text.{CString}
use tark_os.Fs.{Table, file_at}
use tark_os.Console.{Console, print}
use tark_os.Shell.Help.{is_among}
use tark_os.Shell.Listing.{show_entry}
use tark_os.Shell.EntryLaws.{Gives}
use tark_os.Shell.ListingLaws.{IsDistinct}

-- Some file of the table gives the entry.
abbrev pub SomeGives : CString → CString → Table → Type 0
SomeGives prefix entry t = (j : ℕ) × (j < length t) × Gives prefix entry (file_at t j)

-- A row of the list: the entry, whether it is a directory, and a size.
abbrev pub Row : Type 0
Row = (CString × Bool) × ℕ

unfoldable pub print_rows : Console → List Row → Console
print_rows s [] = s
print_rows s (((entry, is_dir), size) ∷ rows) = print_rows (show_entry s entry is_dir size) rows

abbrev pub entries : List Row → List CString
entries rows = map (λ (row : Row). row.0.0) rows

-- From the entries `shown` on, the list goes on by rows, which are what is printed.
abbrev Prints : List CString → Console → Console × List CString → Type 0
Prints shown s r = (rows : List Row) × (r.1 ≡ shown ++ entries rows) × (r.0 ≡ print_rows s rows)

-- What a list of a directory is: no entry stands in it twice, it has exactly the entries that some
-- file gives, and a row for each of them is printed, in order, behind the title.
abbrev pub Lists : CString → Table → Console → Console × List CString → Type 0
Lists dir t s r =
    IsDistinct r.1
    × ((entry : CString) → (is_among r.1 entry ≡ true) ↔ SomeGives dir entry t)
    × ((rows : List Row) × (r.1 ≡ entries rows)
        × (r.0 ≡ print_rows (print s (codes "RAMDisk Index:\n")) rows))
