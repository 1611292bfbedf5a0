-- ===== src/Interrupts/Masks.antt =====
-- kernel/arch/i386/pic.c: the lines that the masks of the two controllers shut.
use tark_os.Prelude.{
  ℕ, zero, suc, ◌%◌, ◌^◌, ◌<◌, ◌≡◌, refl, sym, ap, ◌∙◌, arith, Bool, true, false, ltb, leb, ◌==◌,
  if◌then◌else◌, bit_and, bit_or, Bool-cases, inl, inr,
}
use tark_os.Prelude.Bits.{bit, test-bit, test, hole, test-or_pow, test-and_hole}
use tark_os.Interrupts.Pic.{
  Ports, pic1_data, pic2_data, data_port, line, pic_set_mask, pic_clear_mask,
}

-- A controller's data port reads as the byte that was written to it last, and the other
-- controller's data port is not changed by the write.
pub record KeepsMasks {ℓ} {M : Type ℓ} (ports : Ports M) : Type ℓ where
  pub read_back : (m : M) (value : ℕ) → ports.inb (ports.outb m pic1_data value) pic1_data ≡ value
  pub read_back2 : (m : M) (value : ℕ) → ports.inb (ports.outb m pic2_data value) pic2_data ≡ value
  pub apart :
      (m : M) (value : ℕ)
      → ports.inb (ports.outb m pic1_data value) pic2_data ≡ ports.inb m pic2_data
  pub apart2 :
      (m : M) (value : ℕ)
      → ports.inb (ports.outb m pic2_data value) pic1_data ≡ ports.inb m pic1_data

module _ {ℓ} {M : Type ℓ} (ports : Ports M) where
  -- Line `irq` of 0 to 15 is shut.
  unfoldable pub is_masked : M → ℕ → Bool
  is_masked m irq = test (ports.inb m (data_port ports irq)) (line ports irq)

low_bit : (j w : ℕ) → j < 8 → bit (w % 256) j ≡ bit w j
unfolding bit
low_bit zero w h = omega arith
low_bit (suc zero) w h = omega arith
low_bit (suc (suc zero)) w h = omega arith
low_bit (suc (suc (suc zero))) w h = omega arith
low_bit (suc (suc (suc (suc zero)))) w h = omega arith
low_bit (suc (suc (suc (suc (suc zero))))) w h = omega arith
low_bit (suc (suc (suc (suc (suc (suc zero)))))) w h = omega arith
low_bit (suc (suc (suc (suc (suc (suc (suc zero))))))) w h = omega arith
low_bit (suc (suc (suc (suc (suc (suc (suc (suc j)))))))) w h = absurd (omega arith)

test-byte : (j w : ℕ) → j < 8 → test (w % 256) j ≡ test w j
test-byte j w h = test-bit (w % 256) j ∙ ap (λ b. b == 1) (low_bit j w h) ∙ sym (test-bit w j)

abbrev same_chip : ℕ → ℕ → Bool
same_chip irq j = if ltb irq 8 then ltb j 8 else leb 8 j

module _ {ℓ} {M : Type ℓ} (ports : Ports M) (keeps : KeepsMasks ports) where
  -- A write to the data port of line `irq` is read there, and by no line of the other controller.
  inb-outb :
      (m : M) (irq j value : ℕ)
      → ports.inb (ports.outb m (data_port ports irq) value) (data_port ports j)
        ≡ (if same_chip irq j then value else ports.inb m (data_port ports j))
  inb-outb m irq j value = elim (Bool-cases (ltb irq 8)) [
    | inl e ↦ elim (Bool-cases (ltb j 8)) [
      | inl e' ↦ rw (e, e') (keeps.read_back m value)
      | inr e' ↦ rw (e, e') (keeps.apart m value)
    ]
    | inr e ↦ elim (Bool-cases (ltb j 8)) [
      | inl e' ↦ let low : leb 8 j ≡ false = ground arith in rw (e, e', low) (keeps.apart2 m value)
      | inr e' ↦
          let high : leb 8 j ≡ true = ground arith in rw (e, e', high) (keeps.read_back2 m value)
    ]
  ]

  -- What a write does to the lines.
  is_masked-outb :
      (m : M) (irq j value : ℕ)
      → irq < 16
      → j < 16
      → is_masked ports (ports.outb m (data_port ports irq) (value % 256)) j
        ≡ (if same_chip irq j then test value (line ports j) else is_masked ports m j)
  unfolding is_masked
  is_masked-outb m irq j value h k =
      rw (inb-outb m irq j (value % 256)) (elim (Bool-cases (same_chip irq j)) [
        | inl e ↦ rw e (test-byte (line ports j) value (ground arith))
        | inr e ↦ rw e refl
      ])

  -- Two lines of one controller are the same exactly if they have one place in its mask.
  same_line : (irq j : ℕ) → same_chip irq j ≡ true → (line ports irq == line ports j) ≡ (irq == j)
  same_line irq j e = ground arith

  same_port : (irq j : ℕ) → same_chip irq j ≡ true → data_port ports irq ≡ data_port ports j
  same_port irq j e = ground arith

  -- A change of one digit of a controller's mask is a change of one line.
  one_line :
      (m : M) (irq j : ℕ) (change : ℕ → ℕ) (b : Bool)
      → ((w : ℕ)
          → test (change w) (line ports j)
            ≡ (if line ports irq == line ports j then b else test w (line ports j)))
      → (if same_chip irq j
          then test (change (ports.inb m (data_port ports irq))) (line ports j)
          else is_masked ports m j)
        ≡ (if irq == j then b else is_masked ports m j)
  unfolding is_masked
  one_line m irq j change b f = elim (Bool-cases (same_chip irq j)) [
    | inl e ↦
        rw (e, f (ports.inb m (data_port ports irq)), same_line irq j e, same_port irq j e) refl
    | inr e ↦ let other : (irq == j) ≡ false = ground arith in rw (e, other) refl
  ]

  -- `pic_set_mask` shuts its line and `pic_clear_mask` opens it; no other line of 0 to 15 changes.
  pub masks-lines :
      (m : M) (irq j : ℕ)
      → irq < 16
      → j < 16
      → (is_masked ports (pic_set_mask ports m irq) j
          ≡ (if irq == j then true else is_masked ports m j))
        × (is_masked ports (pic_clear_mask ports m irq) j
            ≡ (if irq == j then false else is_masked ports m j))
  unfolding is_masked pic_set_mask pic_clear_mask
  masks-lines m irq j h k =
      let place = line ports irq in
      let small : (i : ℕ) → i < 16 → line ports i < 8 = λ i l. ground arith in
      (
        is_masked-outb m irq j (bit_or (ports.inb m (data_port ports irq)) (2 ^ place)) h k
            ∙ one_line m irq j (λ w. bit_or w (2 ^ place)) true (test-or_pow place (line ports j)),
        is_masked-outb m irq j (bit_and (ports.inb m (data_port ports irq)) (hole 32 place)) h k
            ∙ one_line m irq j (λ w. bit_and w (hole 32 place)) false
                (λ w.
                  test-and_hole 32 place (line ports j) w (omega (arith, small irq h))
                    (omega (arith, small j k))),
      )
