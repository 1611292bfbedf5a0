-- ===== src/Clib/Bounded.antt =====
-- string.c: how far `strncpy` writes.
use tark_os.Prelude.{
  ℕ, zero, suc, ◌+◌, ◌<◌, ◌≡◌, refl, ◌∙◌, ap, arith, [], ◌∷◌, length, length-set, set,
  get_or-set_self, get_or-set_ne,
}
use tark_os.Text.{CString}
use tark_os.Clib.{Memory, byte_at, set_bytes, strncpy}

-- Bytes before the region that `set_bytes` writes stay.
set_bytes_before :
    (mem : Memory) (d val n j : ℕ) → j < d → byte_at (set_bytes mem d val n) j ≡ byte_at mem j
unfolding set_bytes
set_bytes_before mem d val zero j l = refl
set_bytes_before mem d val (suc n) j l =
    set_bytes_before (set mem d val) (d + 1) val n j (omega arith)
    ∙ get_or-set_ne mem d j val 0 (λ same. omega arith)

set_bytes_last :
    (mem : Memory) (d val n : ℕ)
    → d + n < length mem
    → byte_at (set_bytes mem d val (suc n)) (d + n) ≡ val
unfolding set_bytes
set_bytes_last mem d val zero h =
    let here : d + 0 ≡ d = omega arith in
    ap (byte_at (set mem d val)) here ∙ get_or-set_self mem d val 0 (omega arith)
set_bytes_last mem d val (suc n) h =
    let here : d + suc n ≡ d + 1 + n = omega arith in
    ap (byte_at (set_bytes (set mem d val) (d + 1) val (suc n))) here
    ∙ set_bytes_last (set mem d val) (d + 1) val n (omega (arith, length-set mem d val))

-- If the source is shorter than the limit, `strncpy` writes a 0 one place behind the `n` bytes of
-- its destination.
pub strncpy-overrun :
    (mem : Memory) (d : ℕ) (src : CString) (n : ℕ)
    → length src < n
    → d + n < length mem
    → byte_at (strncpy mem d src n) (d + n) ≡ 0
unfolding strncpy
strncpy-overrun mem d src zero l h = absurd (omega arith)
strncpy-overrun mem d [] (suc n) l h =
    let here : d + suc n ≡ d + 1 + n = omega arith in
    ap (byte_at (set_bytes (set mem d 0) (d + 1) 0 (suc n))) here
    ∙ set_bytes_last (set mem d 0) (d + 1) 0 n (omega (arith, length-set mem d 0))
strncpy-overrun mem d (c ∷ cs) (suc n) l h =
    let here : d + suc n ≡ d + 1 + n = omega arith in
    ap (byte_at (strncpy (set mem d c) (d + 1) cs n)) here
    ∙ strncpy-overrun (set mem d c) (d + 1) cs n (omega arith) (omega (arith, length-set mem d c))
