-- ===== src/Shell/CatLaws.antt =====
-- kernel.c: what the command `cat` prints of a file, and of one that `write` has written.
use tark_os.Prelude.{
  ℕ, zero, suc, ◌≤◌, ◌<◌, ◌≡◌, ◌≢◌, refl, sym, ap, ◌∙◌, arith, true, false, ltb, inl, inr, ◌⊎◌,
  none, some, List, [], ◌∷◌, length, codes, take, get_or,
}
use mathlib.Core.Option
use mathlib.Core.Option.{some-injective}
use tark_os.Prelude.Int.{pos}
use tark_os.Text.{CString}
use tark_os.Text.Search.{str_eq_refl}
use tark_os.Text.Tokens.{after_n_tokens}
use tark_os.Fs.{Table, file_at, fs_write_file, max_file_size, max_files, clamp_size, no_space}
use tark_os.Fs.Lookup.{find_file-cases}
use tark_os.Fs.Buffer.{content}
use tark_os.Fs.Map.{view, write_file-Writes}
use tark_os.Fs.Invariant
use tark_os.Fs.Commands
use tark_os.Fs.Commands.{Reply}
use tark_os.Fs.CommandKeeps.{write-keeps}
use tark_os.Shell.Editor.{string_in}
use tark_os.Shell.Session.{Session, Env, App, say, answer, word, path_of}
use tark_os.Shell.FileCommands.{run_write, write_message}
use tark_os.Shell.InfoCommands.{run_cat}
use tark_os.Shell.SessionLaws.{IsSession}
use tark_os.Fs.Dirs.{build_path}
use tark_os.Fs.PathLaws.{build_path-valid}

-- No byte of a text is NUL.
unfoldable pub HasNoNul : List ℕ → Type 0
HasNoNul [] = Unit
HasNoNul (c ∷ cs) = (c ≢ 0) × HasNoNul cs

string_in-take :
    (buf : List ℕ) (n : ℕ)
    → n < length buf
    → get_or buf n 0 ≡ 0
    → HasNoNul (take n buf)
    → string_in buf ≡ take n buf
unfolding string_in HasNoNul
string_in-take [] n h e plain = absurd (omega arith)
string_in-take (b ∷ buf) zero h e plain = rw e refl
string_in-take (zero ∷ buf) (suc n) h e plain = absurd (plain.0 refl)
string_in-take (suc b ∷ buf) (suc n) h e plain =
    ap (◌∷◌ (suc b)) (string_in-take buf n (omega arith) e plain.1)

-- `cat` prints the contents that the map of files has under its path.
pub run_cat-view :
    (env : Env) (s : Session) (argv : List CString) (raw_line : CString) (text : List ℕ)
    → Invariant.IsValid s.fs_table
    → 2 ≤ length argv
    → view s.fs_table (path_of env.unset s (word argv 1)) ≡ some text
    → HasNoNul text
    → run_cat env s argv raw_line ≡ (say s (text ∷ codes "\n" ∷ []), App.no_app)
unfolding run_cat
run_cat-view env s argv raw_line text v two shown plain =
    let path = path_of env.unset s (word argv 1) in
    let enough : ltb (length argv) 2 ≡ false = ground arith in
    elim (find_file-cases s.fs_table path) [
      | inl (missing, gone) ↦
          let e : none ≡ some text = ap (Option.map content) (sym gone) ∙ shown in
          absurd (ground (arith, e))
      | inr (k, found, h) ↦
          let f = file_at s.fs_table k in
          let same : content f ≡ text =
            some-injective (content f) text (ap (Option.map content) (sym h.1) ∙ shown) in
          let file = v.files k in
          let fits : f.size < length f.contents = omega (arith, file.buffer, file.fits) in
          let read : string_in f.contents ≡ text =
            string_in-take f.contents f.size fits file.ended (rw same plain) ∙ same in
          rw (enough, found, run_cat) (ap (λ t. (say s (t ∷ codes "\n" ∷ []), App.no_app)) read)
    ]

take_all : (xs : List ℕ) → take (length xs) xs ≡ xs
take_all [] = refl
take_all (x ∷ xs) = ap (◌∷◌ x) (take_all xs)

-- A command leaves the path, and the table that it gives.
view-write :
    (t : Table) (path : CString) (msg : List ℕ)
    → (Commands.write t path msg).0 ≡ (fs_write_file t path msg (pos (length msg))).0
unfolding Commands.write
view-write t path msg = refl

run_cat-answer :
    (env : Env) (s : Session) (r : Table × Reply) (argv : List CString) (line : CString)
    (text : List ℕ)
    → Invariant.IsValid r.0
    → 2 ≤ length argv
    → view r.0 (path_of env.unset s (word argv 1)) ≡ some text
    → HasNoNul text
    → run_cat env (answer s write_message r) argv line
      ≡ (say (answer s write_message r) (text ∷ codes "\n" ∷ []), App.no_app)
unfolding answer say path_of
run_cat-answer env s (t, reply) argv line text v two shown plain =
    run_cat-view env (answer s write_message (t, reply)) argv line text v two shown plain

run_write-answer :
    (env : Env) (s : Session) (argv : List CString) (line : CString)
    → 3 ≤ length argv
    → (run_write env s argv line).0
      ≡ answer s write_message
          (Commands.write s.fs_table (path_of env.unset s (word argv 1)) (after_n_tokens line 2))
unfolding run_write
run_write-answer env s argv line three =
    let enough : ltb (length argv) 3 ≡ false = ground arith in rw enough refl

write_full :
    (s : Session) (path : CString) (msg : List ℕ)
    → fs_write_file s.fs_table path msg (pos (length msg)) ≡ (s.fs_table, no_space)
    → answer s write_message (Commands.write s.fs_table path msg)
      ≡ say s (codes "Error: No space.\n" ∷ [])
unfolding answer Commands.write
write_full s path msg full = rw full refl

path_of-built :
    (unset : CString) (s : Session) (arg : CString) {path : CString}
    → build_path s.current_path arg ≡ some path
    → path_of unset s arg ≡ path
unfolding path_of
path_of-built unset s arg e = rw (e, path_of) refl

-- `write f text` and then `cat f`, where `build_path` gives `f` a path: either no file has the path
-- and every entry of the table is in use, the table stays and the message says that there is no
-- space, or `cat` prints the text just written. The text is what stands behind the second word of
-- the line, has no NUL and fits a file, and the shell is in order.
pub run_cat-run_write :
    (env env' : Env) (s : Session) (argv argv' : List CString) (line line' path : CString)
    → IsSession s
    → 3 ≤ length argv
    → 2 ≤ length argv'
    → word argv' 1 ≡ word argv 1
    → build_path s.current_path (word argv 1) ≡ some path
    → length (after_n_tokens line 2) < max_file_size
    → HasNoNul (after_n_tokens line 2)
    → ((view s.fs_table path ≡ none)
        × ((j : ℕ) → j < max_files → (file_at s.fs_table j).used ≡ true)
        × ((run_write env s argv line).0 ≡ say s (codes "Error: No space.\n" ∷ [])))
      ⊎ (run_cat env' (run_write env s argv line).0 argv' line' ≡ (
        say (run_write env s argv line).0 (after_n_tokens line 2 ∷ codes "\n" ∷ []),
        App.no_app,
      ))
run_cat-run_write env env' s argv argv' line line' path v three two same built fits plain =
    let msg = after_n_tokens line 2 in
    let size = pos (length msg) in
    let whole : clamp_size size ≡ length msg = ground arith in
    let ok = build_path-valid s.current_path (word argv 1) built in
    let at = path_of-built env.unset s (word argv 1) built in
    let done : (run_write env s argv line).0
        ≡ answer s write_message (Commands.write s.fs_table path msg) =
      run_write-answer env s argv line three
      ∙ ap (λ p. answer s write_message (Commands.write s.fs_table p msg)) at in
    elim (write_file-Writes s.fs_table path msg size v.table ok (omega (arith, whole))) [
      | inl (full, gone, used) ↦ inl (gone, used, done ∙ write_full s path msg full)
      | inr (id, code, inside, shown) ↦
          let there : view (Commands.write s.fs_table path msg).0 path ≡ some msg =
            ap (λ t. view t path) (view-write s.fs_table path msg)
            ∙ shown path
            ∙ rw (str_eq_refl path, whole) (ap (λ m. some m) (take_all msg)) in
          let at' = path_of-built env'.unset s (word argv' 1) (rw same built) in
          inr (
            rw done (
              run_cat-answer env' s (Commands.write s.fs_table path msg) argv' line' msg
                (write-keeps s.fs_table v.table path msg) two (rw at' there) plain))
    ]
