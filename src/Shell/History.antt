-- ===== src/Shell/History.antt =====
-- kernel.c: the shell's history, `history_buf` and `history_count`, in `shell_loop`.
use tark_os.Prelude.{ℕ, zero, suc, ◌+◌, ◌-◌, ◌≤◌, ◌<◌, ◌≡◌, refl, sym, ◌∙◌, ap, arith, inl, inr}
use tark_os.Prelude.{Bool, not, ◌||◌, ltb, ◌==◌, if◌then◌else◌, Bool-cases, if_intro}
use tark_os.Prelude.{
  List, [], ◌∷◌, ◌++◌, get_or, set, take, drop, length, length-set, length-take, length-drop,
  length-append,
}
use tark_os.Text.{CString, str_eq}

abbrev pub history_size : ℕ
history_size = 8

pub record History : Type 0 where
  pub history_buf : List CString
  pub history_count : ℕ

-- `for (i = k + 1; ...) strcpy(history_buf[i - 1], history_buf[i]);`, `n` times.
unfoldable pub shift_from : List CString → ℕ → ℕ → List CString
shift_from buf k zero = buf
shift_from buf k (suc n) = shift_from (set buf k (get_or buf (suc k) [])) (suc k) n

-- A line is kept unless it is the one before it again.
unfoldable pub remember : History → CString → History
unfolding shift_from str_eq
remember h line =
    let last = history_size - 1 in
    if h.history_count == 0 || not (str_eq (get_or h.history_buf (h.history_count - 1) []) line)
    then (if ltb h.history_count history_size
        then record {
          history_buf = set h.history_buf h.history_count line;
          history_count = h.history_count + 1;
        }
        else record h { history_buf = set (shift_from h.history_buf 0 last) last line })
    else h

-- Each line fits its 64 bytes with its NUL.
abbrev pub AllShort : List CString → Type 0
AllShort buf = (i : ℕ) → length (get_or buf i []) < 64

pub record IsHistory (h : History) : Type 0 where
  pub places : length h.history_buf ≡ history_size
  pub count : h.history_count ≤ history_size
  pub short : AllShort h.history_buf

-- The lines that the command `history` lists, the oldest first.
abbrev pub shown : History → List CString
shown h = take h.history_count h.history_buf

-- A line behind those shown, of which the last 8 stay; no line twice in a row.
abbrev pub kept : List CString → CString → List CString
kept lines line =
    if length lines == 0 || not (str_eq (get_or lines (length lines - 1) []) line)
    then drop (length lines + 1 - history_size) (lines ++ line ∷ [])
    else lines

take-set_end :
    (buf : List CString) (n : ℕ) (v : CString)
    → n < length buf
    → take (suc n) (set buf n v) ≡ take n buf ++ v ∷ []
take-set_end [] n v h = absurd (omega arith)
take-set_end (b ∷ buf) zero v h = refl
take-set_end (b ∷ buf) (suc n) v h = ap (◌∷◌ b) (take-set_end buf n v (omega arith))

take_all : (buf : List CString) (n : ℕ) → length buf ≤ n → take n buf ≡ buf
take_all [] zero h = refl
take_all [] (suc n) h = refl
take_all (b ∷ buf) zero h = absurd (omega arith)
take_all (b ∷ buf) (suc n) h = ap (◌∷◌ b) (take_all buf n (omega arith))

get_or-take : (buf : List CString) (n i : ℕ) → i < n → get_or (take n buf) i [] ≡ get_or buf i []
get_or-take buf zero i h = absurd (omega arith)
get_or-take [] (suc n) i h = refl
get_or-take (b ∷ buf) (suc n) zero h = refl
get_or-take (b ∷ buf) (suc n) (suc i) h = get_or-take buf n i (omega arith)

shift_behind :
    (x : CString) (buf : List CString) (k n : ℕ)
    → shift_from (x ∷ buf) (suc k) n ≡ x ∷ shift_from buf k n
unfolding shift_from
shift_behind x buf k zero = refl
shift_behind x buf k (suc n) = shift_behind x (set buf k (get_or buf (suc k) [])) (suc k) n

-- Shifting drops the first line and frees the last place for the new one.
shift_all :
    (x : CString) (rest : List CString) (line : CString)
    → set (shift_from (x ∷ rest) 0 (length rest)) (length rest) line ≡ rest ++ line ∷ []
unfolding shift_from
shift_all x [] line = refl
shift_all x (y ∷ rest) line =
    ap (λ b. set b (suc (length rest)) line) (shift_behind y (y ∷ rest) 0 (length rest))
    ∙ ap (◌∷◌ y) (shift_all y rest line)

shift_full :
    (buf : List CString) (line : CString)
    → length buf ≡ history_size
    → set (shift_from buf 0 (history_size - 1)) (history_size - 1) line ≡ drop 1 (buf ++ line ∷ [])
shift_full [] line h = absurd (omega arith)
shift_full (x ∷ rest) line h =
    let seven : length rest ≡ 7 = omega arith in
    ap (λ n. set (shift_from (x ∷ rest) 0 n) n line) (sym seven) ∙ shift_all x rest line

length-shown : (h : History) → IsHistory h → length (shown h) ≡ h.history_count
length-shown h v = omega (arith, length-take h.history_count h.history_buf, v.places, v.count)

-- The test reads the last of the lines shown.
is_new : History → CString → Bool
is_new h line =
    h.history_count == 0 || not (str_eq (get_or h.history_buf (h.history_count - 1) []) line)

is_new_lem :
    (h : History) (line : CString)
    → IsHistory h
    → (length (shown h) == 0 || not (str_eq (get_or (shown h) (length (shown h) - 1) []) line))
      ≡ is_new h line
unfolding is_new
is_new_lem h line v = elim (Bool-cases (h.history_count == 0)) [
  | inl e ↦ rw (length-shown h v, e) refl
  | inr e ↦
      let last : h.history_count - 1 < h.history_count = ground arith in
      rw (length-shown h v, e, get_or-take h.history_buf h.history_count (h.history_count - 1) last)
        refl
]

-- What `remember` does with a line that is new.
entered :
    (buf : List CString) (n : ℕ) (line : CString)
    → length buf ≡ history_size
    → n ≤ history_size
    → shown (
        if ltb n history_size
        then record { history_buf = set buf n line; history_count = n + 1 }
        else record {
          history_buf = set (shift_from buf 0 (history_size - 1)) (history_size - 1) line;
          history_count = n;
        })
      ≡ drop (n + 1 - history_size) (take n buf ++ line ∷ [])
entered buf n line places count = elim (Bool-cases (ltb n history_size)) [
  | inl e ↦
      let next : n + 1 ≡ suc n = omega arith in
      let room : suc n - history_size ≡ 0 = ground arith in
      rw (e, next, room) (take-set_end buf n line (ground arith))
  | inr e ↦
      let full : n ≡ history_size = ground arith in
      let whole : take history_size buf ≡ buf = take_all buf history_size (omega arith) in
      rw (full, whole, shift_full buf line places)
        (take_all (drop 1 (buf ++ line ∷ [])) history_size
          (omega (arith, length-drop 1 (buf ++ line ∷ []), length-append buf (line ∷ []), places)))
]

-- A line entered is put behind the lines shown, of which the last 8 stay, unless it equals the last
-- of them; then they are as they were.
pub shown-remember :
    (h : History) (line : CString) → IsHistory h → shown (remember h line) ≡ kept (shown h) line
unfolding remember is_new
shown-remember h line v = elim (Bool-cases (is_new h line)) [
  | inl new ↦
      rw (is_new_lem h line v, new, length-shown h v)
        (entered h.history_buf h.history_count line v.places v.count)
  | inr old ↦ rw (is_new_lem h line v, old) refl
]

set-AllShort :
    (buf : List CString) (k : ℕ) (line : CString)
    → AllShort buf
    → length line < 64
    → AllShort (set buf k line)
set-AllShort [] k line all short i = omega arith
set-AllShort (b ∷ buf) zero line all short zero = short
set-AllShort (b ∷ buf) zero line all short (suc i) = all (suc i)
set-AllShort (b ∷ buf) (suc k) line all short zero = all 0
set-AllShort (b ∷ buf) (suc k) line all short (suc i) =
    set-AllShort buf k line (λ j. all (suc j)) short i

shift_from-AllShort :
    (buf : List CString) (k n : ℕ)
    → AllShort buf
    → AllShort (shift_from buf k n) × (length (shift_from buf k n) ≡ length buf)
unfolding shift_from
shift_from-AllShort buf k zero all = (all, refl)
shift_from-AllShort buf k (suc n) all =
    let next = get_or buf (suc k) [] in
    let (rest, size) =
      shift_from-AllShort (set buf k next) (suc k) n (set-AllShort buf k next all (all (suc k))) in
    (rest, size ∙ length-set buf k next)

pub remember-IsHistory :
    (h : History) (line : CString) → IsHistory h → length line < 64 → IsHistory (remember h line)
unfolding remember is_new
remember-IsHistory h line v fits = elim (Bool-cases (is_new h line)) [
  | inr old ↦ rw old v
  | inl new ↦ elim (Bool-cases (ltb h.history_count history_size)) [
    | inl room ↦
        rw (new, room)
          record {
            places = length-set h.history_buf h.history_count line ∙ v.places;
            count = ground arith;
            short = set-AllShort h.history_buf h.history_count line v.short fits;
          }
    | inr full ↦
        let (all, size) = shift_from-AllShort h.history_buf 0 7 v.short in
        rw (new, full)
          record {
            places = length-set (shift_from h.history_buf 0 7) 7 line ∙ size ∙ v.places;
            count = v.count;
            short = set-AllShort (shift_from h.history_buf 0 7) 7 line all fits;
          }
  ]
]

pub remember-le : (h : History) (line : CString) → h.history_count ≤ (remember h line).history_count
unfolding remember is_new
remember-le h line =
    let P = λ (r : History). h.history_count ≤ r.history_count in
    if_intro P (is_new h line) _ _
      (λ e. if_intro P (ltb h.history_count history_size) _ _ (λ e. omega arith) (λ e. omega arith))
      (λ e. omega arith)
