-- ===== src/Fs/Commands.antt =====
-- kernel/kernel.c: the shell's commands on files, in `shell_loop`; what a command prints is its
-- reply. The paths are the buffers that `build_path` filled. But for mkdir and rmdir the shell goes
-- on where it did not, with whatever the buffer held, so a path is any string here.
use tark_os.Prelude.{
  ℕ, zero, suc, ltb, ◌==◌, ◌&&◌, if◌then◌else◌, none, some, List, [], ◌∷◌, ◌++◌, codes,
}
use tark_os.Prelude.{set, length, get_or, drop, ◌-◌, ◌<◌, ◌≡◌, refl, arith, true}
use tark_os.Prelude.Int.{ℤ, pos, negsuc}
use tark_os.Text.{CString, str_eq, str_contains, slash}
use tark_os.Fs.{
  File, memcpy, Table, file_at, fs_find_file, fs_write_file, fs_append_file, fs_delete_file,
}
use tark_os.Fs.Dirs.{build_path, fs_mkdir, fs_rmdir, fs_dir_exists, path_parent}

pub data Reply : Type 0 where
  done : Reply
  no_space not_found destination_exists bad_path failed : Reply

-- `fs_write_file(...) != -1`: -1 is `negsuc 0`, and any other code passes.
abbrev pub write_reply : ℤ → Reply
write_reply (pos n) = Reply.done
write_reply (negsuc zero) = Reply.no_space
write_reply (negsuc (suc n)) = Reply.done

unfoldable pub touch : Table → CString → Table × Reply
unfolding fs_write_file
touch t path = let (t', code) = fs_write_file t path [] (pos 0) in (t', write_reply code)

unfoldable pub write : Table → CString → List ℕ → Table × Reply
unfolding fs_write_file
write t path msg =
    let (t', code) = fs_write_file t path msg (pos (length msg)) in (t', write_reply code)

unfoldable pub append : Table → CString → List ℕ → Table × Reply
unfolding fs_append_file
append t path msg =
    let (t', wrote) = fs_append_file t path msg (pos (length msg)) in
    (t', elim wrote [ pos n ↦ Reply.done | negsuc n ↦ Reply.not_found ])

unfoldable pub rm : Table → CString → Table × Reply
unfolding fs_delete_file
rm t path =
    let (t', removed) = fs_delete_file t path in
    (t', if removed then Reply.done else Reply.not_found)

unfoldable pub cp : Table → CString → CString → Table × Reply
unfolding fs_find_file fs_write_file
cp t src dest = elim (fs_find_file t src) [
  | none ↦ (t, Reply.not_found)
  | some sid ↦
      let (t', code) = fs_write_file t dest (file_at t sid).contents (pos (file_at t sid).size) in
      (t', write_reply code)
]

-- `strcpy` of a path into `name`. What does not fit the 32 bytes runs on into the data behind it, with
-- its NUL; the name reads on there until the data are written again.
unfoldable pub renamed : File → CString → File
unfolding memcpy
renamed f dest = if ltb (length dest) 32 then record f { name = dest } else record f {
  name = dest;
  contents = memcpy f.contents 0 (drop 32 dest ++ 0 ∷ []) (length dest - 31);
}

-- With a path that fits, only the name changes.
pub renamed-fits :
    (f : File) (dest : CString) → length dest < 32 → renamed f dest ≡ record f { name = dest }
unfolding renamed
renamed-fits f dest h = let fits : ltb (length dest) 32 ≡ true = ground arith in rw fits refl

unfoldable pub mv : Table → CString → CString → Table × Reply
unfolding fs_find_file renamed
mv t src dest = elim (fs_find_file t src) [
  | none ↦ (t, Reply.not_found)
  | some sid ↦ elim (fs_find_file t dest) [
    | some did ↦ (t, Reply.destination_exists)
    | none ↦ (set t sid (renamed (file_at t sid) dest), Reply.done)
  ]
]

unfoldable pub mkdir : Table → CString → CString → Table × Reply
unfolding build_path fs_mkdir
mkdir t current arg = elim (build_path current arg) [
  | none ↦ (t, Reply.bad_path)
  | some path ↦ let (t', made) = fs_mkdir t path in (t', if made then Reply.done else Reply.failed)
]

unfoldable pub rmdir : Table → CString → CString → Table × Reply
unfolding build_path fs_rmdir
rmdir t current arg = elim (build_path current arg) [
  | none ↦ (t, Reply.bad_path)
  | some path ↦
      let (t', removed) = fs_rmdir t path in
      (t', if ltb 0 removed then Reply.done else Reply.not_found)
]

-- `cd` with an argument: the new `current_path`. `new_path` is not bounded here.
unfoldable pub cd : Table → CString → CString → CString × Reply
unfolding path_parent fs_dir_exists
cd t current arg =
    let new_path =
      if get_or arg 0 0 == slash
      then arg
      else if str_eq current (slash ∷ [])
      then slash ∷ arg
      else current ++ slash ∷ arg in
    if str_eq arg (slash ∷ [])
    then (slash ∷ [], Reply.done)
    else if str_eq arg (codes "..")
    then (path_parent current, Reply.done)
    else if str_eq arg (codes ".")
    then (current, Reply.done)
    else if fs_dir_exists t new_path
    then (new_path, Reply.done)
    else (current, Reply.not_found)

-- The names that `find` prints.
unfoldable pub find : Table → CString → List CString
unfolding str_contains
find [] text = []
find (f ∷ fs) text =
    let rest = find fs text in if f.used && str_contains f.name text then f.name ∷ rest else rest
