-- ===== src/Shell/EditorLaws.antt =====
-- kernel.c: what `tredit` makes of the text before its cursor.
use tark_os.Prelude.{
  ℕ, zero, suc, ◌+◌, ◌-◌, ◌≤◌, ◌<◌, ◌≡◌, refl, sym, ◌∙◌, ap, arith, inl, inr, ◌⊎◌,
}
use tark_os.Prelude.{
  Bool, true, false, not, ◌&&◌, ◌||◌, ltb, ◌==◌, if◌then◌else◌, Bool-cases, ==→eq,
}
use tark_os.Prelude.{none, some, List, [], ◌∷◌, ◌++◌, set, take, length, length-take, replicate}
use tark_os.Prelude.Int.{pos}
use tark_os.Text.{CString, newline, str_eq}
use tark_os.Fs.{Table, max_file_size, max_files, file_at, fs_name_valid, clamp_size}
use tark_os.Fs.Map.{view, write_file-Writes}
use tark_os.Console.{backspace}
use tark_os.Shell.{scancode_to_char}
use tark_os.Shell.Editor.{Editor, type_char, press, press_all}
use tark_os.Fs.Invariant.{IsValid}

-- The text of the file: what stands before the cursor, which is always at its end.
abbrev pub text : Editor → List ℕ
text e = take e.ptr e.edit_buffer

-- The buffer is there, and the cursor in it.
pub record IsEditor (e : Editor) : Type 0 where
  pub buffer : length e.edit_buffer ≡ max_file_size
  pub inside : e.ptr < max_file_size

-- What a character makes of a text.
abbrev pub typed : List ℕ → ℕ → List ℕ
typed s ch =
    if ch == backspace
    then take (length s - 1) s
    else if ch == newline || (not (ch == 0) && ltb (length s) (max_file_size - 1))
    then s ++ ch ∷ []
    else s

take-set_end :
    (buf : List ℕ) (n v : ℕ) → n < length buf → take (suc n) (set buf n v) ≡ take n buf ++ v ∷ []
take-set_end [] n v h = absurd (omega arith)
take-set_end (b ∷ buf) zero v h = refl
take-set_end (b ∷ buf) (suc n) v h = ap (◌∷◌ b) (take-set_end buf n v (omega arith))

take-set_here : (buf : List ℕ) (n v : ℕ) → take n (set buf n v) ≡ take n buf
take-set_here buf zero v = refl
take-set_here [] (suc n) v = refl
take-set_here (b ∷ buf) (suc n) v = ap (◌∷◌ b) (take-set_here buf n v)

take-take : (buf : List ℕ) (n : ℕ) → take n (take (suc n) buf) ≡ take n buf
take-take buf zero = refl
take-take [] (suc n) = refl
take-take (b ∷ buf) (suc n) = ap (◌∷◌ b) (take-take buf n)

length-text : (e : Editor) → IsEditor e → length (text e) ≡ e.ptr
length-text e v = omega (arith, length-take e.ptr e.edit_buffer, v.buffer, v.inside)

erase_at :
    (buf : List ℕ) (n : ℕ)
    → suc n ≤ length buf
    → take n (set buf n 0) ≡ take (length (take (suc n) buf) - 1) (take (suc n) buf)
erase_at buf n h =
    take-set_here buf n 0
    ∙ sym (take-take buf n)
    ∙ ap (λ k. take k (take (suc n) buf)) (omega (arith, length-take (suc n) buf))

erase :
    (buf : List ℕ) (n : ℕ)
    → n ≤ length buf
    → (n == 0) ≡ false
    → take (n - 1) (set buf (n - 1) 0) ≡ take (length (take n buf) - 1) (take n buf)
erase buf n h some_left =
    let before : suc (n - 1) ≡ n = ground arith in
    rw before at (erase_at buf (n - 1) (ground arith))

or_middle : (a b c : Bool) → b ≡ false → (a || b || c) ≡ (a || c)
or_middle a b c h = rw h (split a)
  where
    split : (a : Bool) → (a || false || c) ≡ (a || c)
    split true = refl
    split false = refl

if_true : {A : Type 0} (b : Bool) (x y : A) → b ≡ true → (if b then x else y) ≡ x
if_true b x y h = rw h refl

-- With the cursor in the buffer, a character does to the text what `typed` says: backspace takes
-- the last byte, newline adds one, and any other character adds one below 2,047 bytes.
pub text-type_char : (e : Editor) (ch : ℕ) → IsEditor e → text (type_char e ch) ≡ typed (text e) ch
unfolding type_char
text-type_char e ch v = elim (Bool-cases (ch == backspace)) [
  | inl e1 ↦
      let key : ch ≡ backspace = ==→eq ch backspace e1 in
      elim (Bool-cases (e.ptr == 0)) [
        | inl e2 ↦ let start : e.ptr ≡ 0 = ==→eq e.ptr 0 e2 in rw (key, start) refl
        | inr e2 ↦ rw (key, e2) (erase e.edit_buffer e.ptr (omega (arith, v.buffer, v.inside)) e2)
      ]
  | inr e1 ↦
      let guard =
        or_middle (ch == newline) (ch == backspace) (not (ch == 0) && ltb e.ptr (max_file_size - 1))
          e1 in
      elim (Bool-cases (ch == newline || (not (ch == 0) && ltb e.ptr (max_file_size - 1)))) [
        | inl e2 ↦
            let next : e.ptr + 1 ≡ suc e.ptr = omega arith in
            rw (guard, e1, length-text e v, e2, next)
              (take-set_end e.edit_buffer e.ptr ch (omega (arith, v.buffer, v.inside)))
        | inr e2 ↦ rw (guard, e1, length-text e v, e2) refl
      ]
]

-- The cursor after a character: a newline moves it on whatever there is room for.
pub ptr-type_char :
    (e : Editor) (ch : ℕ)
    → (type_char e ch).ptr
      ≤ (if ch == newline || ltb e.ptr (max_file_size - 1) then e.ptr + 1 else e.ptr)
unfolding type_char
ptr-type_char e ch = ground arith

enter_key : (filename : CString) (e : Editor) → (press filename e 0x1C).ptr ≡ e.ptr + 1
unfolding press scancode_to_char type_char
enter_key filename e = elim (Bool-cases e.shift) [ inl s ↦ rw s refl | inr s ↦ rw s refl ]

enter_run : (filename : CString) (e : Editor) → (press filename e 0x1C).run ≡ e.run
unfolding press scancode_to_char type_char
enter_run filename e = elim (Bool-cases e.shift) [ inl s ↦ rw s refl | inr s ↦ rw s refl ]

press_all-next :
    (filename : CString) (e : Editor) (sc : ℕ) (scans : List ℕ)
    → e.run ≡ true
    → press_all filename e (sc ∷ scans) ≡ press_all filename (press filename e sc) scans
unfolding press_all
press_all-next filename e sc scans h =
    if_true e.run (press_all filename (press filename e sc) scans) e h

-- While the editor runs, each press of Enter moves the cursor on by one, in a buffer of 2,048 bytes
-- and behind it.
pub press_all-enter :
    (filename : CString) (e : Editor) (n : ℕ)
    → e.run ≡ true
    → (press_all filename e (replicate n 0x1C)).ptr ≡ e.ptr + n
unfolding press_all
press_all-enter filename e zero h = omega arith
press_all-enter filename e (suc n) h =
    ap (λ (t : Editor). t.ptr) (press_all-next filename e 0x1C (replicate n 0x1C) h)
    ∙ press_all-enter filename (press filename e 0x1C) n (enter_run filename e ∙ h)
    ∙ omega (arith, enter_key filename e)

-- The table of files after saving: the text is under the name and all else is as it was; or there
-- was no room, no file had the name, and nothing changed.
abbrev pub Saves : CString → Editor → Table → Type 0
Saves filename e t =
    ((m : CString) → view t m ≡ (if str_eq filename m then some (text e) else view e.fs_table m))
    ⊎ ((t ≡ e.fs_table)
        × (view e.fs_table filename ≡ none)
        × ((j : ℕ) → j < max_files → (file_at e.fs_table j).used ≡ true))

-- With the cursor in the buffer, a valid table and a name of 1 to 31 bytes, F2 stores the text under
-- the name in the map of files, or finds no room and changes no file; the text stays as it is.
pub press-Saves :
    (filename : CString) (e : Editor)
    → IsEditor e
    → IsValid e.fs_table
    → fs_name_valid filename ≡ true
    → Saves filename e (press filename e 0x3C).fs_table × (text (press filename e 0x3C) ≡ text e)
unfolding press
press-Saves filename e v valid ok =
    let fits : clamp_size (pos e.ptr) ≡ e.ptr = ground (arith, v.inside) in
    let enough : clamp_size (pos e.ptr) ≤ length e.edit_buffer =
      omega (arith, fits, v.buffer, v.inside) in
    (
      elim (write_file-Writes e.fs_table filename e.edit_buffer (pos e.ptr) valid ok enough) [
        | inl (same, missing, full) ↦ inr (ap (λ p. p.0) same, missing, full)
        | inr (id, code, inside, stored) ↦ inl (λ m.
            stored m
            ∙ ap (λ n. if str_eq filename m then some (take n e.edit_buffer) else view e.fs_table m)
                fits)
      ],
      refl,
    )
