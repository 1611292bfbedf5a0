-- ===== src/Fs/Errors.antt =====
-- kernel.c: the shell's commands where they fail.
use tark_os.Prelude.{ℕ, ◌+◌, ◌≡◌, refl, ap, arith, ◌⊎◌, inl, inr}
use tark_os.Prelude.{
  Bool, true, ◌&&◌, ◌||◌, ltb, leb, ◌==◌, if◌then◌else◌, if_intro, Bool-cases, Option, none, some,
  [], ◌∷◌, ◌++◌, length, set, ◌-◌, Option-cases,
}
use tark_os.Prelude.Int.{ℤ, pos, negsuc}
use tark_os.Text.{CString}
use tark_os.Fs.{
  Table, file_at, fs_find_file, fs_name_valid, slot_for, fs_write_file, fs_append_file,
  fs_delete_file, append_at, fill_file, clamp_size, max_file_size,
}
use tark_os.Fs.Dirs.{
  strip_slashes, build_path, fs_mkdir, make_mark, is_code_ok, fs_rmdir, remove_under, is_under,
  dir_mark,
}
use tark_os.Fs.Commands.{Reply, write_reply, touch, write, append, rm, cp, mv, mkdir, rmdir}

-- The command was done, or the table is as it was.
abbrev pub DoneOrSame : Table → Table × Reply → Type 0
DoneOrSame t r = (r.1 ≡ Reply.done) ⊎ (r.0 ≡ t)

abbrev WroteOrSame : Table → Table × ℤ → Type 0
WroteOrSame t r = ((id : ℕ) × (r.1 ≡ pos id)) ⊎ (r.0 ≡ t)

write_file-WroteOrSame :
    (t : Table) (name : CString) (src : CString) (size : ℤ)
    → WroteOrSame t (fs_write_file t name src size)
unfolding fs_write_file
write_file-WroteOrSame t name src size =
    if_intro (WroteOrSame t) (fs_name_valid name) _ _ (λ e. slot (slot_for t name)) (λ e. inr refl)
  where
    slot :
        (o : Option ℕ)
        → WroteOrSame t (elim o [
          | none ↦ (t, negsuc 0)
          | some id ↦ (set t id (fill_file (file_at t id) name src (clamp_size size)), pos id)
        ])
    slot none = inr refl
    slot (some id) = inl (id, refl)

-- What a command reports of a write.
reported : (t : Table) (r : Table × ℤ) → WroteOrSame t r → DoneOrSame t (r.0, write_reply r.1)
reported t r (inl (id, e)) = inl (ap write_reply e)
reported t r (inr same) = inr same

touch-DoneOrSame : (t : Table) (path : CString) → DoneOrSame t (touch t path)
unfolding touch
touch-DoneOrSame t path =
    reported t (fs_write_file t path [] (pos 0)) (write_file-WroteOrSame t path [] (pos 0))

write-DoneOrSame : (t : Table) (path msg : CString) → DoneOrSame t (write t path msg)
unfolding write
write-DoneOrSame t path msg =
    let size = pos (length msg) in
    reported t (fs_write_file t path msg size) (write_file-WroteOrSame t path msg size)

append_at-same :
    (t : Table) (id : ℕ) (src : CString) (n : ℕ)
    → (elim (append_at t id src (pos n)).1 [ pos n ↦ Reply.done | negsuc n ↦ Reply.not_found ])
      ≡ Reply.done
unfolding append_at
append_at-same t id src n =
    if_intro
      (λ (r : Table × ℤ).
        (elim r.1 [ pos n ↦ Reply.done | negsuc n ↦ Reply.not_found ]) ≡ Reply.done)
      (n == 0 || leb (max_file_size - 1) (file_at t id).size) _ _ (λ e. refl) (λ e. refl)

append-DoneOrSame : (t : Table) (path msg : CString) → DoneOrSame t (append t path msg)
unfolding append fs_append_file
append-DoneOrSame t path msg = elim (Option-cases (fs_find_file t path)) [
  | inl e ↦ rw (e, append, fs_append_file) (inr refl)
  | inr (id, e) ↦ rw (e, append, fs_append_file) (inl (append_at-same t id msg (length msg)))
]

rm-DoneOrSame : (t : Table) (path : CString) → DoneOrSame t (rm t path)
unfolding rm fs_delete_file
rm-DoneOrSame t path = elim (Option-cases (fs_find_file t path)) [
  | inl e ↦ rw (e, rm, fs_delete_file) (inr refl)
  | inr (id, e) ↦ rw (e, rm, fs_delete_file) (inl refl)
]

cp-DoneOrSame : (t : Table) (src dest : CString) → DoneOrSame t (cp t src dest)
unfolding cp
cp-DoneOrSame t src dest = elim (Option-cases (fs_find_file t src)) [
  | inl e ↦ rw (e, cp) (inr refl)
  | inr (sid, e) ↦
      rw (e, cp)
        (let src = (file_at t sid).contents in
          let size = pos (file_at t sid).size in
          reported t (fs_write_file t dest src size) (write_file-WroteOrSame t dest src size))
]

mv-DoneOrSame : (t : Table) (src dest : CString) → DoneOrSame t (mv t src dest)
unfolding mv
mv-DoneOrSame t src dest = elim (Option-cases (fs_find_file t src)) [
  | inl e ↦ rw (e, mv) (inr refl)
  | inr (sid, e) ↦ elim (Option-cases (fs_find_file t dest)) [
    | inl e' ↦ rw (e, e', mv) (inl refl)
    | inr (did, e') ↦ rw (e, e', mv) (inr refl)
  ]
]

-- A loop that removes nothing leaves the table.
remove_under-same :
    (t : Table) (dir : CString) → (remove_under t dir).1 ≡ 0 → (remove_under t dir).0 ≡ t
unfolding remove_under
remove_under-same [] dir h = refl
remove_under-same (f ∷ fs) dir h = elim (Bool-cases (f.used && is_under dir f.name)) [
  | inl e ↦ absurd (ground (arith, h, e))
  | inr e ↦ rw e (ap (◌∷◌ f) (remove_under-same fs dir (rw e at h)))
]

make_mark-same :
    (t : Table) (meta : CString) → ((make_mark t meta).1 ≡ true) ⊎ ((make_mark t meta).0 ≡ t)
unfolding make_mark
make_mark-same t meta = elim (Option-cases (fs_find_file t meta)) [
  | inr (id, e) ↦ rw (e, make_mark) (inl refl)
  | inl e ↦
      rw (e, make_mark)
        (elim (write_file-WroteOrSame t meta [] (pos 0)) [
          | inl (id, code) ↦ inl (ap is_code_ok code)
          | inr same ↦ inr same
        ])
]

made :
    (t : Table) (r : Table × Bool)
    → (r.1 ≡ true) ⊎ (r.0 ≡ t)
    → DoneOrSame t (r.0, if r.1 then Reply.done else Reply.failed)
made t r (inl e) = inl (rw e refl)
made t r (inr same) = inr same

fs_mkdir-same :
    (t : Table) (path : CString) → ((fs_mkdir t path).1 ≡ true) ⊎ ((fs_mkdir t path).0 ≡ t)
unfolding fs_mkdir
fs_mkdir-same t path =
    let base = strip_slashes path in
    let P = λ (r : Table × Bool). (r.1 ≡ true) ⊎ (r.0 ≡ t) in
    if_intro P (length base == 0) _ _ (λ e. inr refl)
      (λ e.
        if_intro P (leb 32 (length base + 5)) _ _ (λ e. inr refl)
          (λ e. make_mark-same t (base ++ dir_mark)))

mkdir-DoneOrSame : (t : Table) (current arg : CString) → DoneOrSame t (mkdir t current arg)
unfolding mkdir
mkdir-DoneOrSame t current arg = elim (Option-cases (build_path current arg)) [
  | inl e ↦ rw (e, mkdir) (inr refl)
  | inr (path, e) ↦ rw (e, mkdir) (made t (fs_mkdir t path) (fs_mkdir-same t path))
]

removed :
    (t : Table) (r : Table × ℕ)
    → (r.1 ≡ 0 → r.0 ≡ t)
    → DoneOrSame t (r.0, if ltb 0 r.1 then Reply.done else Reply.not_found)
removed t r same = elim (Bool-cases (ltb 0 r.1)) [
  | inl e ↦ inl (rw e refl)
  | inr e ↦ inr (same (ground arith))
]

fs_rmdir-same : (t : Table) (path : CString) → (fs_rmdir t path).1 ≡ 0 → (fs_rmdir t path).0 ≡ t
unfolding fs_rmdir
fs_rmdir-same t path =
    let base = strip_slashes path in
    if_intro (λ (r : Table × ℕ). r.1 ≡ 0 → r.0 ≡ t) (length base == 0) _ _ (λ e h. refl)
      (λ e. remove_under-same t base)

rmdir-DoneOrSame : (t : Table) (current arg : CString) → DoneOrSame t (rmdir t current arg)
unfolding rmdir
rmdir-DoneOrSame t current arg = elim (Option-cases (build_path current arg)) [
  | inl e ↦ rw (e, rmdir) (inr refl)
  | inr (path, e) ↦ rw (e, rmdir) (removed t (fs_rmdir t path) (fs_rmdir-same t path))
]

-- Each of the shell's commands that change files either reports that it was done, or leaves the
-- table of files exactly as it was.
pub commands-DoneOrSame :
    (t : Table) (path dest msg : CString)
    → DoneOrSame t (touch t path)
      × DoneOrSame t (write t path msg)
      × DoneOrSame t (append t path msg)
      × DoneOrSame t (rm t path)
      × DoneOrSame t (cp t path dest)
      × DoneOrSame t (mv t path dest)
      × DoneOrSame t (mkdir t path dest)
      × DoneOrSame t (rmdir t path dest)
commands-DoneOrSame t path dest msg = (
  touch-DoneOrSame t path,
  write-DoneOrSame t path msg,
  append-DoneOrSame t path msg,
  rm-DoneOrSame t path,
  cp-DoneOrSame t path dest,
  mv-DoneOrSame t path dest,
  mkdir-DoneOrSame t path dest,
  rmdir-DoneOrSame t path dest,
)
