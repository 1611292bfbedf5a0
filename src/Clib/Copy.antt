-- ===== src/Clib/Copy.antt =====
-- string.c: `memcpy` by words is the copy byte by byte, and `memmove` copies any two regions.
use tark_os.Prelude.{
  ℕ, zero, suc, ◌+◌, ◌*◌, ◌/◌, ◌%◌, ◌≤◌, ◌<◌, ◌≡◌, ◌≢◌, refl, sym, ◌∙◌, ap, arith, ◌⊎◌, inl, inr,
}
use tark_os.Prelude.{
  ◌&&◌, ltb, ◌==◌, Bool-cases, ==→eq, ==→ne, length, length-set, set, get_or-set_self,
  get_or-set_ne,
}
use tark_os.Clib.{
  Memory, byte_at, copy_forward, copy_word, copy_words, copy_backward, memcpy, memmove,
}

-- The `n` bytes at `d` of `mem'` are those at `s` of `mem`, and all others are as in `mem`.
pub record Copies (mem : Memory) (d s n : ℕ) (mem' : Memory) : Type 0 where
  pub size : length mem' ≡ length mem
  pub inside : (j k : ℕ) → d ≤ j → j < d + n → k + d ≡ j + s → byte_at mem' j ≡ byte_at mem k
  pub outside : (j : ℕ) → (j < d) ⊎ (d + n ≤ j) → byte_at mem' j ≡ byte_at mem j

-- A forward copy does not write what it has still to read.
abbrev pub IsForward : ℕ → ℕ → ℕ → Type 0
IsForward d s n = (d ≤ s) ⊎ (s + n ≤ d)

not_written :
    (n : ℕ) {d s j k : ℕ}
    → IsForward d s (suc n)
    → d ≢ j
    → d ≤ j
    → j < d + suc n
    → k + d ≡ j + s
    → d ≢ k
not_written n (inl h) ne a b e same = omega arith
not_written n (inr h) ne a b e same = omega arith

IsForward-next : (n : ℕ) {d s : ℕ} → IsForward d s (suc n) → IsForward (d + 1) (s + 1) n
IsForward-next n (inl h) = inl (omega arith)
IsForward-next n (inr h) = inr (omega arith)

copy_forward-Copies :
    (mem : Memory) (d s n : ℕ)
    → IsForward d s n
    → d + n ≤ length mem
    → Copies mem d s n (copy_forward mem d s n)
unfolding copy_forward
copy_forward-Copies mem d s zero f h = record {
  size = refl;
  inside = λ j k a b e. absurd (omega arith);
  outside = λ j o. refl;
}
copy_forward-Copies mem d s (suc n) f h =
    let v = byte_at mem s in
    let rest =
      copy_forward-Copies (set mem d v) (d + 1) (s + 1) n (IsForward-next n f)
        (omega (arith, length-set mem d v)) in
    record {
      size = rest.size ∙ length-set mem d v;
      inside = λ j k a b e. elim (Bool-cases (d == j)) [
        | inl y ↦
            let here : d ≡ j = ==→eq d j y in
            let there : s ≡ k = omega arith in
            rest.outside j (inl (omega arith))
            ∙ ap (byte_at (set mem d v)) (sym here)
            ∙ get_or-set_self mem d v 0 (omega arith)
            ∙ ap (byte_at mem) there
        | inr n' ↦
            let ne = ==→ne d j n' in
            rest.inside j k (omega arith) (omega arith) (omega arith)
            ∙ get_or-set_ne mem d k v 0 (not_written n f ne a b e)
      ];
      outside = λ j o. rest.outside j (further o) ∙ get_or-set_ne mem d j v 0 (apart o);
    }
  where
    further : {j : ℕ} → (j < d) ⊎ (d + suc n ≤ j) → (j < d + 1) ⊎ (d + 1 + n ≤ j)
    further (inl l) = inl (omega arith)
    further (inr l) = inr (omega arith)

    apart : {j : ℕ} → (j < d) ⊎ (d + suc n ≤ j) → d ≢ j
    apart (inl l) same = omega arith
    apart (inr l) same = omega arith

copy_backward-Copies :
    (mem : Memory) (d s n : ℕ)
    → s ≤ d
    → d + n ≤ length mem
    → Copies mem d s n (copy_backward mem d s n)
unfolding copy_backward
copy_backward-Copies mem d s zero f h = record {
  size = refl;
  inside = λ j k a b e. absurd (omega arith);
  outside = λ j o. refl;
}
copy_backward-Copies mem d s (suc n) f h =
    let v = byte_at mem (s + n) in
    let rest =
      copy_backward-Copies (set mem (d + n) v) d s n f (omega (arith, length-set mem (d + n) v)) in
    record {
      size = rest.size ∙ length-set mem (d + n) v;
      inside = λ j k a b e. elim (Bool-cases (d + n == j)) [
        | inl y ↦
            let here : d + n ≡ j = ==→eq (d + n) j y in
            let there : s + n ≡ k = omega arith in
            rest.outside j (inr (omega arith))
            ∙ ap (byte_at (set mem (d + n) v)) (sym here)
            ∙ get_or-set_self mem (d + n) v 0 (omega arith)
            ∙ ap (byte_at mem) there
        | inr n' ↦
            let ne = ==→ne (d + n) j n' in
            let earlier : j < d + n = omega arith in
            rest.inside j k a earlier e ∙ get_or-set_ne mem (d + n) k v 0 (λ same. omega arith)
      ];
      outside = λ j o. rest.outside j (further o) ∙ get_or-set_ne mem (d + n) j v 0 (apart o);
    }
  where
    further : {j : ℕ} → (j < d) ⊎ (d + suc n ≤ j) → (j < d) ⊎ (d + n ≤ j)
    further (inl l) = inl l
    further (inr l) = inr (omega arith)

    apart : {j : ℕ} → (j < d) ⊎ (d + suc n ≤ j) → d + n ≢ j
    apart (inl l) same = omega arith
    apart (inr l) same = omega arith

-- For regions inside the memory, however they overlap, `memmove` puts the source's bytes, as they
-- were before, at the destination, and changes no other byte.
pub memmove-Copies :
    (mem : Memory) (d s n : ℕ) → d + n ≤ length mem → Copies mem d s n (memmove mem d s n)
unfolding memmove
memmove-Copies mem d s n h = elim (Bool-cases (ltb d s)) [
  | inl below ↦ rw below (copy_forward-Copies mem d s n (inl (ground arith)) h)
  | inr not_below ↦ elim (Bool-cases (ltb s d)) [
    | inl above ↦ rw (not_below, above) (copy_backward-Copies mem d s n (ground arith) h)
    | inr same ↦
        rw (not_below, same)
          record {
            size = refl;
            inside = λ j k a b e. let here : j ≡ k = ground arith in ap (byte_at mem) here;
            outside = λ j o. refl;
          }
  ]
]

copy_forward_add :
    (mem : Memory) (d s a b : ℕ)
    → copy_forward mem d s (a + b) ≡ copy_forward (copy_forward mem d s a) (d + a) (s + a) b
unfolding copy_forward
copy_forward_add mem d s zero b =
    let x : d + 0 ≡ d = omega arith in
    let y : s + 0 ≡ s = omega arith in let z : 0 + b ≡ b = omega arith in rw (x, y, z) refl
copy_forward_add mem d s (suc a) b =
    let x : d + suc a ≡ d + 1 + a = omega arith in
    let y : s + suc a ≡ s + 1 + a = omega arith in
    let z : suc a + b ≡ suc (a + b) = omega arith in
    rw (x, y, z) (copy_forward_add (set mem d (byte_at mem s)) (d + 1) (s + 1) a b)

-- Regions that do not overlap.
abbrev pub IsDisjoint : ℕ → ℕ → ℕ → Type 0
IsDisjoint d s n = (d + n ≤ s) ⊎ (s + n ≤ d)

next_apart : {d s : ℕ} (i j : ℕ) → IsDisjoint d s 4 → i < 4 → j < 4 → d + i ≢ s + j
next_apart i j (inl h) l l' same = omega arith
next_apart i j (inr h) l l' same = omega arith

fewer : {d s : ℕ} (n k : ℕ) → k ≤ n → IsDisjoint d s n → IsDisjoint d s k
fewer n k l (inl h) = inl (omega arith)
fewer n k l (inr h) = inr (omega arith)

behind : {d s : ℕ} (a b : ℕ) → IsDisjoint d s (a + b) → IsDisjoint (d + a) (s + a) b
behind a b (inl h) = inl (omega arith)
behind a b (inr h) = inr (omega arith)

-- Byte `i` of the destination's four is none of the source's.
read_past :
    (mem : Memory) (d s v i j : ℕ)
    → IsDisjoint d s 4
    → (a b : ℕ) → a ≡ d + i
    → b ≡ s + j
    → i < 4
    → j < 4
    → byte_at (set mem a v) b ≡ byte_at mem b
read_past mem d s v i j apart a b at from l l' =
    get_or-set_ne mem a b v 0 (λ same. next_apart i j apart l l' (sym at ∙ same ∙ from))

no_bytes : (mem : Memory) (d s : ℕ) → mem ≡ copy_forward mem d s 0
unfolding copy_forward
no_bytes mem d s = refl

copy_word_lem :
    (mem : Memory) (d s : ℕ) → IsDisjoint d s 4 → copy_word mem d s ≡ copy_forward mem d s 4
unfolding copy_forward
copy_word_lem mem d s apart =
    let m1 = set mem d (byte_at mem s) in
    let m2 = set m1 (d + 1) (byte_at mem (s + 1)) in
    let m3 = set m2 (d + 1 + 1) (byte_at mem (s + 1 + 1)) in
    let second : byte_at m1 (s + 1) ≡ byte_at mem (s + 1) =
      read_past mem d s (byte_at mem s) 0 1 apart d (s + 1) (omega arith) (omega arith)
        (omega arith) (omega arith) in
    let third : byte_at m2 (s + 1 + 1) ≡ byte_at mem (s + 1 + 1) =
      read_past m1 d s (byte_at mem (s + 1)) 1 2 apart (d + 1) (s + 1 + 1) (omega arith)
        (omega arith) (omega arith) (omega arith)
      ∙ read_past mem d s (byte_at mem s) 0 2 apart d (s + 1 + 1) (omega arith) (omega arith)
          (omega arith) (omega arith) in
    let fourth : byte_at m3 (s + 1 + 1 + 1) ≡ byte_at mem (s + 1 + 1 + 1) =
      read_past m2 d s (byte_at mem (s + 1 + 1)) 2 3 apart (d + 1 + 1) (s + 1 + 1 + 1) (omega arith)
        (omega arith) (omega arith) (omega arith)
      ∙ read_past m1 d s (byte_at mem (s + 1)) 1 3 apart (d + 1) (s + 1 + 1 + 1) (omega arith)
          (omega arith) (omega arith) (omega arith)
      ∙ read_past mem d s (byte_at mem s) 0 3 apart d (s + 1 + 1 + 1) (omega arith) (omega arith)
          (omega arith) (omega arith) in
    rw (second, third, fourth) refl

copy_words_lem :
    (mem : Memory) (d s q : ℕ)
    → IsDisjoint d s (q * 4)
    → copy_words mem d s q ≡ copy_forward mem d s (q * 4)
unfolding copy_words
copy_words_lem mem d s zero apart =
    let none_left : 0 * 4 ≡ 0 = omega arith in rw none_left (no_bytes mem d s)
copy_words_lem mem d s (suc q) apart =
    let four : suc q * 4 ≡ 4 + q * 4 = omega arith in
    let apart' : IsDisjoint d s (4 + q * 4) = fewer (suc q * 4) (4 + q * 4) (omega arith) apart in
    copy_words_lem (copy_word mem d s) (d + 4) (s + 4) q (behind 4 (q * 4) apart')
    ∙ ap (λ m. copy_forward m (d + 4) (s + 4) (q * 4))
        (copy_word_lem mem d s (fewer (4 + q * 4) 4 (omega arith) apart'))
    ∙ sym (copy_forward_add mem d s 4 (q * 4))
    ∙ ap (copy_forward mem d s) (sym four)

-- For regions inside the memory that do not overlap, `memcpy`, by words or by bytes, puts the
-- source's bytes at the destination and changes no other byte.
pub memcpy-Copies :
    (mem : Memory) (d s n : ℕ)
    → IsDisjoint d s n
    → d + n ≤ length mem
    → Copies mem d s n (memcpy mem d s n)
unfolding memcpy
memcpy-Copies mem d s n apart h = elim (Bool-cases (d % 4 == 0 && s % 4 == 0)) [
  | inr bytes ↦ rw bytes (copy_forward-Copies mem d s n (forward apart) h)
  | inl words ↦
      let q = n / 4 in
      let sum : q * 4 + n % 4 ≡ n = omega arith in
      rw
        (
          words,
          copy_words_lem mem d s q (fewer n (q * 4) (omega arith) apart),
          sym (copy_forward_add mem d s (q * 4) (n % 4)),
          sum,
        )
        (copy_forward-Copies mem d s n (forward apart) h)
]
  where
    forward : IsDisjoint d s n → IsForward d s n
    forward (inl l) = inl (omega arith)
    forward (inr l) = inr l
