-- ===== src/Shell/Listing.antt =====
-- kernel.c: the lists of a directory that `ls` prints. The loops of `ls_dir_path` and of
-- `ls_current_dir` are the same; the prefix is the path without its first slash.
use tark_os.Prelude.{
  ℕ, zero, suc, ◌+◌, ◌/◌, Bool, true, false, ◌&&◌, ◌==◌, if◌then◌else◌, Option, none, some, List,
  [], ◌∷◌, ◌++◌, codes, length, get_or, drop,
}
use tark_os.Prelude.Int.{pos}
use tark_os.Text.{CString, str_eq, starts_with, slash}
use tark_os.Fs.{File, Table}
use tark_os.Fs.Dirs.{base_of, skip_slash}
use tark_os.Clib.Number.{kernel_itoa}
use tark_os.Console.{Console, set_color, print}
use tark_os.Console.Screen.{print_all}
use tark_os.Shell.Help.{is_among}

-- The loop that copies `entry`, for `left` more bytes, and the test for a slash behind it.
unfoldable pub component : ℕ → CString → CString × Bool
component left [] = ([], false)
component zero (c ∷ cs) = ([], c == slash)
component (suc left) (c ∷ cs) =
    let (entry, is_dir) = component left cs in
    if c == slash then ([], true) else (c ∷ entry, is_dir)

-- The part of a name behind the prefix and its slash; nothing, where the loop goes on.
unfoldable pub behind_prefix : CString → CString → Option CString
unfolding starts_with
behind_prefix prefix name =
    let rest = drop (length prefix + 1) name in
    if length prefix == 0
    then some name
    else if starts_with name prefix && get_or name (length prefix) 0 == slash
    then (if length rest == 0 then none else some rest)
    else none

-- The entry that a file gives, and whether it is a directory.
unfoldable pub entry_of : CString → File → Option (CString × Bool)
unfolding behind_prefix component
entry_of prefix f =
    if f.used
    then (elim (behind_prefix prefix f.name) [ none ↦ none | some rest ↦ some (component 31 rest) ])
    else none

-- What is printed for an entry.
unfoldable pub show_entry : Console → CString → Bool → ℕ → Console
unfolding set_color print kernel_itoa print_all
show_entry s entry is_dir size =
    let arrow = print (set_color s s.colors.accent (s.colors.bg / 16)) (b' ' ∷ 0x1F ∷ b' ' ∷ []) in
    let named = print (set_color arrow 0x0F (arrow.colors.bg / 16)) entry in
    if is_dir
    then print named (codes "/\n")
    else print_all named (codes " (" ∷ kernel_itoa (pos size) ∷ codes " bytes)\n" ∷ [])

-- The loop over the files, with the entries shown so far: the console and all entries shown.
unfoldable pub list_from : CString → Table → List CString → Console → Console × List CString
unfolding entry_of show_entry is_among
list_from prefix [] shown s = (s, shown)
list_from prefix (f ∷ fs) shown s = elim (entry_of prefix f) [
  | none ↦ list_from prefix fs shown s
  | some (entry, is_dir) ↦ elim (is_among shown entry) [
    | true ↦ list_from prefix fs shown s
    | false ↦ list_from prefix fs (shown ++ entry ∷ []) (show_entry s entry is_dir f.size)
  ]
]

unfoldable pub list_prefix : CString → Table → Console → Console × List CString
unfolding list_from print
list_prefix prefix t s = list_from prefix t [] (print s (codes "RAMDisk Index:\n"))

unfoldable pub ls_dir_path : CString → Table → Console → Console × List CString
unfolding list_prefix
ls_dir_path path t s = list_prefix (if str_eq path (slash ∷ []) then [] else skip_slash path) t s

unfoldable pub ls_current_dir : CString → Table → Console → Console × List CString
unfolding list_prefix
ls_current_dir current_path t s = list_prefix (base_of current_path) t s
