-- ===== src/Interrupts/Segments.antt =====
-- kernel/arch/i386/gdt.c: what the processor reads in a segment descriptor.
use tark_os.Prelude.{
  ℕ, ◌+◌, ◌-◌, ◌≤◌, ◌*◌, ◌/◌, ◌%◌, ◌^◌, ◌<◌, ◌≡◌, ◌≢◌, ◌∙◌, refl, ap, arith, ◌==◌, leb,
  if◌then◌else◌, List, [], ◌∷◌, get_or, set, get_or-set_self, get_or-set_ne, length, bit_and,
  bit_or, zero, suc,
}
use tark_os.Prelude.Bits.{or_lowest, and_lowest, zero_or, and_zero}
use tark_os.Interrupts.Gdt.{Gdt, GdtEntry, gdt_set_entry, gdt_init, descriptor, gdt_entries}

-- The fields as the processor puts them together. `flags` is the upper half of `granularity`, with
-- the flag of 4 KB units at bit 3 and that of a 32-bit segment at bit 2.
unfoldable pub segment_base : GdtEntry → ℕ
segment_base e = e.base_high * 16777216 + e.base_middle * 65536 + e.base_low

unfoldable pub segment_limit : GdtEntry → ℕ
segment_limit e = e.granularity % 16 * 65536 + e.limit_low

unfoldable pub segment_flags : GdtEntry → ℕ
segment_flags e = e.granularity / 16

and_low_half : (x : ℕ) → bit_and x 15 ≡ x % 16
and_low_half x = omega (
  arith,
  and_lowest x 15,
  and_lowest (x / 2) 7,
  and_lowest (x / 2 / 2) 3,
  and_lowest (x / 2 / 2 / 2) 1,
  and_zero (x / 2 / 2 / 2 / 2),
)

and_high_half : (x : ℕ) → x < 256 → bit_and x 240 ≡ x / 16 * 16
and_high_half x h = omega (
  arith,
  and_lowest x 240,
  and_lowest (x / 2) 120,
  and_lowest (x / 2 / 2) 60,
  and_lowest (x / 2 / 2 / 2) 30,
  and_low_half (x / 2 / 2 / 2 / 2),
)

or_halves : (a b : ℕ) → a < 16 → bit_or a (b * 16) ≡ b * 16 + a
or_halves a b h = omega (
  arith,
  or_lowest a (b * 16),
  or_lowest (a / 2) (b * 16 / 2),
  or_lowest (a / 2 / 2) (b * 16 / 2 / 2),
  or_lowest (a / 2 / 2 / 2) (b * 16 / 2 / 2 / 2),
  zero_part,
)
  where
    or_flip : (n m : ℕ) → n ≡ 0 → bit_or n m ≡ m
    or_flip n m e = rw e (zero_or m)

    zero_part : bit_or (a / 2 / 2 / 2 / 2) (b * 16 / 2 / 2 / 2 / 2) ≡ b
    zero_part = or_flip _ _ (omega arith) ∙ omega arith

abbrev pub no_segment : GdtEntry
no_segment = descriptor 0 0 0 0

abbrev pub segment : Gdt → ℕ → GdtEntry
segment s i = get_or s.gdt i no_segment

-- `gdt_set_entry` round trip: from the entry that it writes the processor reads the base below
-- 2 ^ 32, the limit below 2 ^ 20 and the access byte that were given, and as flags the upper half of
-- the byte `flags`; every other entry stays.
pub gdt_set_entry-reads :
    (index base limit access flags j : ℕ) (s : Gdt)
    → index < length s.gdt
    → base < 2 ^ 32
    → limit < 2 ^ 20
    → access < 256
    → flags < 256
    → j ≢ index
    → (segment_base (segment (gdt_set_entry index base limit access flags s) index) ≡ base)
      × (segment_limit (segment (gdt_set_entry index base limit access flags s) index) ≡ limit)
      × ((segment (gdt_set_entry index base limit access flags s) index).access ≡ access)
      × (segment_flags (segment (gdt_set_entry index base limit access flags s) index) ≡ flags / 16)
      × (segment (gdt_set_entry index base limit access flags s) j ≡ segment s j)
unfolding gdt_set_entry descriptor segment_base segment_limit segment_flags
gdt_set_entry-reads index base limit access flags j s hi hb hl ha hf hj =
    let written = descriptor base limit access flags in
    let here = get_or-set_self s.gdt index written no_segment hi in
    let upper : bit_or (limit / 65536 % 16) (bit_and (flags % 256) 240)
        ≡ flags / 16 * 16 + limit / 65536 =
      ap (bit_or (limit / 65536 % 16)) (and_high_half (flags % 256) (omega arith))
      ∙ or_halves (limit / 65536 % 16) (flags % 256 / 16) (omega arith)
      ∙ omega arith in
    (
      rw here (omega arith),
      rw here (omega (arith, upper)),
      rw here (omega arith),
      rw here (omega (arith, upper)),
      get_or-set_ne s.gdt index j written no_segment (λ e. hj (omega arith)),
    )

module _ {ℓ} {A : Type ℓ} where
  -- Six writes fill a table of six.
  set_six :
      (a b c d e f : A) (xs : List A)
      → length xs ≡ gdt_entries
      → set (set (set (set (set (set xs 0 a) 1 b) 2 c) 3 d) 4 e) 5 f ≡ a ∷ b ∷ c ∷ d ∷ e ∷ f ∷ []
  set_six a b c d e f (x0 ∷ x1 ∷ x2 ∷ x3 ∷ x4 ∷ x5 ∷ []) h = refl
  set_six a b c d e f [] h = absurd (omega arith)
  set_six a b c d e f (x0 ∷ []) h = absurd (omega arith)
  set_six a b c d e f (x0 ∷ x1 ∷ []) h = absurd (omega arith)
  set_six a b c d e f (x0 ∷ x1 ∷ x2 ∷ []) h = absurd (omega arith)
  set_six a b c d e f (x0 ∷ x1 ∷ x2 ∷ x3 ∷ []) h = absurd (omega arith)
  set_six a b c d e f (x0 ∷ x1 ∷ x2 ∷ x3 ∷ x4 ∷ []) h = absurd (omega arith)
  set_six a b c d e f (x0 ∷ x1 ∷ x2 ∷ x3 ∷ x4 ∷ x5 ∷ x6 ∷ xs) h = absurd (omega arith)

abbrev table : List GdtEntry
table =
    no_segment
    ∷ descriptor 0 0xFFFFFFFF 0x9A 0x0C
    ∷ descriptor 0 0xFFFFFFFF 0x92 0x0C
    ∷ descriptor 0 0xFFFFFFFF 0xFA 0x0C
    ∷ descriptor 0 0xFFFFFFFF 0xF2 0x0C
    ∷ no_segment
    ∷ []

gdt_init-table :
    (address : ℕ) (s : Gdt) → length s.gdt ≡ gdt_entries → (gdt_init address s).gdt ≡ table
unfolding gdt_init gdt_set_entry
gdt_init-table address s h = set_six _ _ _ _ _ _ s.gdt h

-- Segment `i` has base 0, a limit of 2 ^ 20 - 1, a present access byte with the ring and the kind
-- meant, and no flag: its units are bytes, not 4 KB, and it is not a 32-bit segment.
unfoldable pub IsByteSegment : ℕ → GdtEntry → Type 0
IsByteSegment i e =
    (segment_base e ≡ 0)
    × (segment_limit e ≡ 2 ^ 20 - 1)
    × (segment_flags e ≡ 0)
    × (e.access ≡ 0x92 + (if leb 3 i then 0x60 else 0) + (if i % 2 == 1 then 8 else 0))

first : IsByteSegment 1 (get_or table 1 no_segment)
unfolding IsByteSegment segment_base segment_limit segment_flags descriptor
first = (refl, refl, refl, refl)

second : IsByteSegment 2 (get_or table 2 no_segment)
unfolding IsByteSegment segment_base segment_limit segment_flags descriptor
second = (refl, refl, refl, refl)

third : IsByteSegment 3 (get_or table 3 no_segment)
unfolding IsByteSegment segment_base segment_limit segment_flags descriptor
third = (refl, refl, refl, refl)

fourth : IsByteSegment 4 (get_or table 4 no_segment)
unfolding IsByteSegment segment_base segment_limit segment_flags descriptor
fourth = (refl, refl, refl, refl)

-- After `gdt_init` on a table of GDT_ENTRIES entries each of the segments 1 to 4, the kernel's and
-- the user's code and data, has base 0, the limit 2 ^ 20 - 1 and the access byte of its ring and
-- kind, but neither of the two flags given: its units are bytes, so that it ends at 1 MB, and it is
-- not a 32-bit segment.
pub gdt_init-IsByteSegment :
    (address i : ℕ) (s : Gdt)
    → length s.gdt ≡ gdt_entries
    → 1 ≤ i
    → i ≤ 4
    → IsByteSegment i (segment (gdt_init address s) i)
gdt_init-IsByteSegment address i s h low high = rw (gdt_init-table address s h) (each i low high)
  where
    each : (i : ℕ) → 1 ≤ i → i ≤ 4 → IsByteSegment i (get_or table i no_segment)
    each zero l h = absurd (omega arith)
    each (suc zero) l h = first
    each (suc (suc zero)) l h = second
    each (suc (suc (suc zero))) l h = third
    each (suc (suc (suc (suc zero)))) l h = fourth
    each (suc (suc (suc (suc (suc i))))) l h = absurd (omega arith)
