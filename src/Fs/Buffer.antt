-- ===== src/Fs/Buffer.antt =====
-- kernel.c: what `memcpy` and the NUL behind it leave in a file's buffer.
use tark_os.Prelude.{
  ℕ, zero, suc, ◌+◌, ◌≤◌, ◌<◌, ◌≡◌, refl, sym, ◌∙◌, ap, arith, List, [], ◌∷◌, ◌++◌,
}
use tark_os.Prelude.{length, set, take, drop, length-set, append_assoc}
use native.Mathlib.Numerals.{add-one}
use tark_os.Fs.{File, memcpy, fill_file, grow_file}
use tark_os.Text.{CString}

pub length-memcpy :
    (buf : List ℕ) (i : ℕ) (src : List ℕ) (n : ℕ) → length (memcpy buf i src n) ≡ length buf
unfolding memcpy
length-memcpy buf i src zero = refl
length-memcpy buf i [] (suc n) = length-memcpy (set buf i 0) (i + 1) [] n ∙ length-set buf i 0
length-memcpy buf i (b ∷ src) (suc n) =
    length-memcpy (set buf i b) (i + 1) src n ∙ length-set buf i b

take-set :
    (buf : List ℕ) (i b : ℕ) → i < length buf → take (suc i) (set buf i b) ≡ take i buf ++ b ∷ []
take-set [] i b h = absurd (omega arith)
take-set (x ∷ buf) zero b h = refl
take-set (x ∷ buf) (suc i) b h = ap (◌∷◌ x) (take-set buf i b (omega arith))

drop-set : (buf : List ℕ) (i j b : ℕ) → i < j → drop j (set buf i b) ≡ drop j buf
drop-set buf i zero b h = absurd (omega arith)
drop-set [] i (suc j) b h = refl
drop-set (x ∷ buf) zero (suc j) b h = refl
drop-set (x ∷ buf) (suc i) (suc j) b h = drop-set buf i j b (omega arith)

take-drop : (buf : List ℕ) (i : ℕ) → take i buf ++ drop i buf ≡ buf
take-drop buf zero = refl
take-drop [] (suc i) = refl
take-drop (x ∷ buf) (suc i) = ap (◌∷◌ x) (take-drop buf i)

-- `memcpy` replaces `n` bytes of the buffer from `i` on by the first `n` of the source.
memcpy_lem :
    (buf : List ℕ) (i : ℕ) (src : List ℕ) (n : ℕ)
    → i + n ≤ length buf
    → n ≤ length src
    → memcpy buf i src n ≡ take i buf ++ (take n src ++ drop (i + n) buf)
unfolding memcpy
memcpy_lem buf i src zero h k = let end : i + 0 ≡ i = omega arith in rw end (sym (take-drop buf i))
memcpy_lem buf i [] (suc n) h k = absurd (omega arith)
memcpy_lem buf i (b ∷ src) (suc n) h k =
    let end : i + 1 + n ≡ i + suc n = omega arith in
    memcpy_lem (set buf i b) (i + 1) src n (omega (arith, length-set buf i b)) (omega arith)
    ∙ rw (end, add-one, take-set buf i b (omega arith), drop-set buf i (i + suc n) b (omega arith))
        (append_assoc (take i buf) (b ∷ []) _)

take-append : (xs ys : List ℕ) → take (length xs) (xs ++ ys) ≡ xs
take-append [] ys = refl
take-append (x ∷ xs) ys = ap (◌∷◌ x) (take-append xs ys)

set-append : (xs ys : List ℕ) (v : ℕ) → set (xs ++ ys) (length xs) v ≡ xs ++ set ys 0 v
set-append [] ys v = refl
set-append (x ∷ xs) ys v = ap (◌∷◌ x) (set-append xs ys v)

-- A NUL written behind `xs` leaves `xs` in front of it.
take-set-append : (xs ys : List ℕ) (n : ℕ) → length xs ≡ n → take n (set (xs ++ ys) n 0) ≡ xs
take-set-append xs ys n e = rw (← e) (ap (take (length xs)) (set-append xs ys 0) ∙ take-append xs _)

length-take_le : (n : ℕ) (xs : List ℕ) → n ≤ length xs → length (take n xs) ≡ n
length-take_le zero xs h = refl
length-take_le (suc n) [] h = absurd (omega arith)
length-take_le (suc n) (x ∷ xs) h = ap suc (length-take_le n xs (omega arith))

-- The file's bytes, without what lies behind them in the buffer.
abbrev pub content : File → List ℕ
content f = take f.size f.contents

pub length-fill_file :
    (f : File) (name : CString) (src : List ℕ) (n : ℕ)
    → length (fill_file f name src n).contents ≡ length f.contents
unfolding fill_file
length-fill_file f name src n =
    length-set (memcpy f.contents 0 src n) n 0 ∙ length-memcpy f.contents 0 src n

pub length-grow_file :
    (f : File) (src : List ℕ) (n : ℕ) → length (grow_file f src n).contents ≡ length f.contents
unfolding grow_file
length-grow_file f src n =
    length-set (memcpy f.contents f.size src n) (f.size + n) 0
    ∙ length-memcpy f.contents f.size src n

-- A written file holds the first `n` bytes of the source.
pub content-fill_file :
    (f : File) (name : CString) (src : List ℕ) (n : ℕ)
    → n ≤ length f.contents
    → n ≤ length src
    → content (fill_file f name src n) ≡ take n src
unfolding fill_file
content-fill_file f name src n h k =
    ap (λ buf. take n (set buf n 0)) (memcpy_lem f.contents 0 src n (omega arith) k)
    ∙ take-set-append (take n src) (drop (0 + n) f.contents) n (length-take_le n src k)

length-append_take :
    (s n : ℕ) (buf src : List ℕ)
    → s ≤ length buf
    → n ≤ length src
    → length (take s buf ++ take n src) ≡ s + n
length-append_take zero n buf src h k = length-take_le n src k ∙ omega arith
length-append_take (suc s) n [] src h k = absurd (omega arith)
length-append_take (suc s) n (x ∷ buf) src h k =
    omega (arith, length-append_take s n buf src (omega arith) k)

-- A file that was appended to holds its old bytes and then the first `n` of the source.
pub content-grow_file :
    (f : File) (src : List ℕ) (n : ℕ)
    → f.size + n ≤ length f.contents
    → n ≤ length src
    → content (grow_file f src n) ≡ content f ++ take n src
unfolding grow_file
content-grow_file f src n h k =
    ap (λ buf. take (f.size + n) (set buf (f.size + n) 0))
      (memcpy_lem f.contents f.size src n h k
        ∙ sym (append_assoc (take f.size f.contents) (take n src) _))
    ∙ take-set-append (take f.size f.contents ++ take n src) (drop (f.size + n) f.contents)
        (f.size + n) (length-append_take f.size n f.contents src (omega arith) k)
