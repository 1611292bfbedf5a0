-- ===== src/Prelude/Grid.antt =====
-- Rectangles of cells in a row-major array.
use Prim.Native.Nat.{ℕ, zero, suc, ◌+◌, ◌*◌, ◌≤◌, ◌<◌}
use mathlib.Core.Path.{◌≡◌, refl, sym, ap, ◌∙◌}
use mathlib.Core.Logic.{inl, inr}
use mathlib.Core.Bool.{Bool, true, false, ◌&&◌}
use mathlib.Core.List.{List}
use native.Mathlib.Omega.{arith}
use native.Mathlib.Nat.{mul-le-mul_right}
use package.tark_os.Prelude.Tests.{ltb, leb, ◌==◌, if◌then◌else◌, Bool-cases, ==→eq, ==→ne}
use package.tark_os.Prelude.Lists.{length, length-set, get_or, set, get_or-set_self, get_or-set_ne}

-- `n` cells from `i` on.
unfoldable pub span : List ℕ → ℕ → ℕ → ℕ → List ℕ
span buf i v zero = buf
span buf i v (suc n) = span (set buf i v) (i + 1) v n

-- `m` rows from `y` on, each of the `n` cells from column `x` on.
unfoldable pub block : ℕ → ℕ → ℕ → ℕ → ℕ → ℕ → List ℕ → List ℕ
unfolding span
block stride x n v zero y buf = buf
block stride x n v (suc m) y buf = block stride x n v m (y + 1) (span buf (y * stride + x) v n)

pub length-span : (buf : List ℕ) (i v n : ℕ) → length (span buf i v n) ≡ length buf
unfolding span
length-span buf i v zero = refl
length-span buf i v (suc n) = length-span (set buf i v) (i + 1) v n ∙ length-set buf i v

pub length-block :
    (stride x n v m y : ℕ) (buf : List ℕ) → length (block stride x n v m y buf) ≡ length buf
unfolding block
length-block stride x n v zero y buf = refl
length-block stride x n v (suc m) y buf =
    length-block stride x n v m (y + 1) (span buf (y * stride + x) v n)
    ∙ length-span buf (y * stride + x) v n

pub get_or-set :
    (buf : List ℕ) (i v j : ℕ)
    → i < length buf
    → get_or (set buf i v) j 0 ≡ (if i == j then v else get_or buf j 0)
get_or-set buf i v j h = elim (Bool-cases (i == j)) [
  | inl e ↦ let here : i ≡ j = ==→eq i j e in rw (e, ← here) (get_or-set_self buf i v 0 h)
  | inr e ↦ rw e (get_or-set_ne buf i j v 0 (==→ne i j e))
]

pub get_or-span :
    (buf : List ℕ) (i v n j : ℕ)
    → i + n ≤ length buf
    → get_or (span buf i v n) j 0 ≡ (if leb i j && ltb j (i + n) then v else get_or buf j 0)
unfolding span
get_or-span buf i v zero j h = ground arith
get_or-span buf i v (suc n) j h = ground (
  arith,
  get_or-span (set buf i v) (i + 1) v n j (omega (arith, length-set buf i v)),
  get_or-set buf i v j (omega arith),
)

-- A cell of a row is in a span of another row's columns exactly if it is that row's.
pub in_row :
    (stride y0 x0 n y x : ℕ)
    → x < stride
    → x0 + n ≤ stride
    → (leb (y0 * stride + x0) (y * stride + x) && ltb (y * stride + x) (y0 * stride + x0 + n))
      ≡ (y0 == y && (leb x0 x && ltb x (x0 + n)))
in_row stride y0 x0 n y x inside fits = elim (Bool-cases (ltb y0 y)) [
  | inl below ↦
      let after : suc y0 * stride ≤ y * stride = mul-le-mul_right stride (ground arith) in
      ground (arith, after, succ_rows y0 stride)
  | inr e ↦ elim (Bool-cases (ltb y y0)) [
    | inl above ↦
        let before : suc y * stride ≤ y0 * stride = mul-le-mul_right stride (ground arith) in
        ground (arith, before, succ_rows y stride)
    | inr e' ↦ let same : y0 ≡ y = ground arith in rw same (ground arith)
  ]
]
  where
    succ_rows : (y s : ℕ) → suc y * s ≡ y * s + s
    succ_rows y s = omega arith

-- A block writes exactly its own cells.
pub get_or-block :
    (stride x0 n v m y0 : ℕ) (buf : List ℕ) (y x : ℕ)
    → x < stride
    → x0 + n ≤ stride
    → (y0 + m) * stride ≤ length buf
    → get_or (block stride x0 n v m y0 buf) (y * stride + x) 0 ≡ (
        if (leb y0 y && ltb y (y0 + m)) && (leb x0 x && ltb x (x0 + n))
        then v
        else get_or buf (y * stride + x) 0)
unfolding block
get_or-block stride x0 n v zero y0 buf y x inside fits h = ground arith
get_or-block stride x0 n v (suc m) y0 buf y x inside fits h =
    let rows : y0 + 1 + m ≡ y0 + suc m = omega arith in
    let row : suc y0 * stride ≤ (y0 + suc m) * stride = mul-le-mul_right stride (omega arith) in
    let one_row : suc y0 * stride ≡ y0 * stride + stride = omega arith in
    let rest =
      get_or-block stride x0 n v m (y0 + 1) (span buf (y0 * stride + x0) v n) y x inside fits
        (rw (rows, length-span buf (y0 * stride + x0) v n) h) in
    let here =
      get_or-span buf (y0 * stride + x0) v n (y * stride + x) (omega (arith, row, one_row)) in
    rest ∙ rw (here, in_row stride y0 x0 n y x inside fits) (rows_join (leb x0 x && ltb x (x0 + n)))
  where
    rows_join :
        (c : Bool)
        → (if (leb (y0 + 1) y && ltb y (y0 + 1 + m)) && c
            then v
            else if y0 == y && c
            then v
            else get_or buf (y * stride + x) 0)
          ≡ (if (leb y0 y && ltb y (y0 + suc m)) && c then v else get_or buf (y * stride + x) 0)
    rows_join true = ground arith
    rows_join false = ground arith

-- Two cells have one place exactly if their rows and columns are the same.
pub same_place :
    (stride y x row col : ℕ)
    → x < stride
    → col < stride
    → (y * stride + x == row * stride + col) ≡ (y == row && x == col)
same_place stride y x row col h k =
    as_span (y * stride + x) (row * stride + col)
    ∙ in_row stride y x 1 row col k (omega arith)
    ∙ ap (λ b. (y == row) && b) (sym (as_span x col))
  where
    as_span : (a b : ℕ) → (a == b) ≡ (leb a b && ltb b (a + 1))
    as_span a b = ground arith

pub cell-lt : (stride rows y x : ℕ) → x < stride → y < rows → y * stride + x < rows * stride
cell-lt stride rows y x h k =
    let whole : suc y * stride ≤ rows * stride = mul-le-mul_right stride (omega arith) in
    let next : suc y * stride ≡ y * stride + stride = omega arith in omega (arith, whole, next)
