-- ===== src/Fs/CommandKeeps.antt =====
-- kernel.c: the shell's commands on files keep the table of files valid.
use tark_os.Prelude.{Option-cases, inl, inr, List, ℕ, length, []}
use tark_os.Prelude.Int.{pos}
use tark_os.Text.{CString}
use tark_os.Fs.{Table, file_at, fs_find_file}
use tark_os.Fs.Dirs.{build_path}
use tark_os.Fs.Invariant.{IsValid}
use tark_os.Fs.Map.{write_file-IsValid}
use tark_os.Fs.Change.{append_file-IsValid, delete_file-IsValid}
use tark_os.Fs.DirLaws.{mkdir-IsValid, rmdir-IsValid}
use tark_os.Fs.Commands.{touch, write, append, rm, cp, mkdir, rmdir}

module _ (t : Table) (v : IsValid t) where
  pub touch-keeps : (path : CString) → IsValid (touch t path).0
  unfolding touch
  touch-keeps path = write_file-IsValid t path [] (pos 0) v

  pub write-keeps : (path : CString) (msg : List ℕ) → IsValid (write t path msg).0
  unfolding write
  write-keeps path msg = write_file-IsValid t path msg (pos (length msg)) v

  pub append-keeps : (path : CString) (msg : List ℕ) → IsValid (append t path msg).0
  unfolding append
  append-keeps path msg = append_file-IsValid t path msg (pos (length msg)) v

  pub rm-keeps : (path : CString) → IsValid (rm t path).0
  unfolding rm
  rm-keeps path = delete_file-IsValid t path v

  pub cp-keeps : (src dest : CString) → IsValid (cp t src dest).0
  unfolding cp
  cp-keeps src dest = elim (Option-cases (fs_find_file t src)) [
    | inl e ↦ rw (e, cp) v
    | inr (sid, e) ↦
        rw (e, cp) (write_file-IsValid t dest (file_at t sid).contents (pos (file_at t sid).size) v)
  ]

  pub mkdir-keeps : (current arg : CString) → IsValid (mkdir t current arg).0
  unfolding mkdir
  mkdir-keeps current arg = elim (Option-cases (build_path current arg)) [
    | inl e ↦ rw (e, mkdir) v
    | inr (path, e) ↦ rw (e, mkdir) (mkdir-IsValid t path v)
  ]

  pub rmdir-keeps : (current arg : CString) → IsValid (rmdir t current arg).0
  unfolding rmdir
  rmdir-keeps current arg = elim (Option-cases (build_path current arg)) [
    | inl e ↦ rw (e, rmdir) v
    | inr (path, e) ↦ rw (e, rmdir) (rmdir-IsValid t path v)
  ]
