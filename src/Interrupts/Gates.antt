-- ===== src/Interrupts/Gates.antt =====
-- kernel/arch/i386/idt.c: what the processor reads in the table that `idt_init` leaves.
use tark_os.Prelude.{
  ℕ, zero, suc, ◌+◌, ◌-◌, ◌*◌, ◌%◌, ◌^◌, ◌<◌, ◌≤◌, ◌≡◌, ◌≢◌, refl, ap, ◌∙◌, arith, ltb, leb, ◌==◌,
  ◌&&◌, if◌then◌else◌, Bool, true, false, List, get_or, set, length, length-set, get_or-set_self,
  get_or-set_ne, Bool-cases, ==→eq, ==→ne, inl, inr,
}
use tark_os.Interrupts.{
  Idt, IdtEntry, idt_set_entry, get_interrupt_handler, clear_entries, set_stubs, idt_init,
  idt_entries, gate_entry, kernel_code_segment, gate_flags,
}

-- The address that a gate jumps to.
unfoldable pub gate_target : IdtEntry → ℕ
gate_target e = e.base_high * 65536 + e.base_low

abbrev pub no_gate : IdtEntry
no_gate = gate_entry 0 0 0

abbrev pub gate : Idt → ℕ → IdtEntry
gate s v = get_or s.idt v no_gate

gate_target-gate_entry :
    (handler selector flags : ℕ)
    → handler < 2 ^ 32
    → gate_target (gate_entry handler selector flags) ≡ handler
unfolding gate_target
gate_target-gate_entry handler selector flags h = omega arith

module _ {ℓ} {A : Type ℓ} where
  get_or-set_any :
      (xs : List A) (i j : ℕ) (v d : A)
      → i < length xs
      → get_or (set xs i v) j d ≡ (if i == j then v else get_or xs j d)
  get_or-set_any xs i j v d h = elim (Bool-cases (i == j)) [
    | inl e ↦ let here : i ≡ j = ==→eq i j e in rw (e, ← here) (get_or-set_self xs i v d h)
    | inr e ↦ rw e (get_or-set_ne xs i j v d (==→ne i j e))
  ]

  -- Writing place after place: the write at `i` joins those from `i + 1` on.
  if_range :
      (x : ℕ → A) (i n j : ℕ) (y : A)
      → (if leb (i + 1) j && ltb j (i + 1 + n) then x j else if i == j then x i else y)
        ≡ (if leb i j && ltb j (i + suc n) then x j else y)
  if_range x i n j y = elim (Bool-cases (i == j)) [
    | inl e ↦ let here : i ≡ j = ==→eq i j e in rw here (ground arith)
    | inr e ↦ let other : i ≢ j = ==→ne i j e in ground arith
  ]

length-clear : (i n : ℕ) (s : Idt) → length (clear_entries i n s).idt ≡ length s.idt
unfolding clear_entries idt_set_entry
length-clear i zero s = refl
length-clear i (suc n) s = length-clear (i + 1) n _ ∙ length-set s.idt i no_gate

gate-clear :
    (i n j : ℕ) (s : Idt)
    → i + n ≤ length s.idt
    → gate (clear_entries i n s) j ≡ (if leb i j && ltb j (i + n) then no_gate else gate s j)
unfolding clear_entries idt_set_entry
gate-clear i zero j s h = ground arith
gate-clear i (suc n) j s h =
    gate-clear (i + 1) n j _ (omega (arith, length-set s.idt i no_gate))
    ∙ rw (get_or-set_any s.idt i j no_gate no_gate (omega arith))
        (if_range (λ v. no_gate) i n j (gate s j))

get_interrupt_handler-clear :
    (i n j : ℕ) (s : Idt)
    → i + n ≤ length s.interrupt_handlers
    → get_or (clear_entries i n s).interrupt_handlers j 0
      ≡ (if leb i j && ltb j (i + n) then 0 else get_or s.interrupt_handlers j 0)
unfolding clear_entries idt_set_entry
get_interrupt_handler-clear i zero j s h = ground arith
get_interrupt_handler-clear i (suc n) j s h =
    get_interrupt_handler-clear (i + 1) n j _ (omega (arith, length-set s.interrupt_handlers i 0))
    ∙ rw (get_or-set_any s.interrupt_handlers i j 0 0 (omega arith))
        (if_range (λ v. 0) i n j (get_or s.interrupt_handlers j 0))

abbrev stub_gate : (ℕ → ℕ) → ℕ → IdtEntry
stub_gate isr v = gate_entry (isr v) kernel_code_segment gate_flags

gate-stubs :
    (isr : ℕ → ℕ) (i n j : ℕ) (s : Idt)
    → i + n ≤ length s.idt
    → gate (set_stubs isr i n s) j
      ≡ (if leb i j && ltb j (i + n) then stub_gate isr j else gate s j)
unfolding set_stubs idt_set_entry
gate-stubs isr i zero j s h = ground arith
gate-stubs isr i (suc n) j s h =
    gate-stubs isr (i + 1) n j _ (omega (arith, length-set s.idt i (stub_gate isr i)))
    ∙ rw (get_or-set_any s.idt i j (stub_gate isr i) no_gate (omega arith))
        (if_range (stub_gate isr) i n j (gate s j))

handlers-stubs :
    (isr : ℕ → ℕ) (i n : ℕ) (s : Idt)
    → (set_stubs isr i n s).interrupt_handlers ≡ s.interrupt_handlers
unfolding set_stubs idt_set_entry
handlers-stubs isr i zero s = refl
handlers-stubs isr i (suc n) s = handlers-stubs isr (i + 1) n _

if_gate :
    (b : Bool) (handler : ℕ)
    → handler < 2 ^ 32
    → (gate_target (if b then gate_entry handler kernel_code_segment gate_flags else no_gate)
        ≡ (if b then handler else 0))
      × ((if b then gate_entry handler kernel_code_segment gate_flags else no_gate).flags
          ≡ (if b then 0x8E else 0))
      × ((if b then gate_entry handler kernel_code_segment gate_flags else no_gate).selector
          ≡ (if b then kernel_code_segment else 0))
      × ((if b then gate_entry handler kernel_code_segment gate_flags else no_gate).zero_byte ≡ 0)
unfolding gate_target
if_gate true handler h = (omega arith, refl, refl, refl)
if_gate false handler h = (refl, refl, refl, refl)

-- After `idt_init`, which begins with any tables of IDT_ENTRIES entries, the gate of each vector
-- below 48 jumps to its stub, is a present 32-bit interrupt gate of ring 0 and has the kernel's code
-- segment; the gate of each other vector has the target 0, the flags 0, so that it is not present,
-- and the selector 0; the reserved byte of every gate is 0; and no vector has a handler. The stub's address is below 2 ^ 32.
pub idt_init-gates :
    (isr : ℕ → ℕ) (address v : ℕ) (s : Idt)
    → length s.idt ≡ idt_entries
    → length s.interrupt_handlers ≡ idt_entries
    → v < idt_entries
    → isr v < 2 ^ 32
    → (gate_target (gate (idt_init isr address s) v) ≡ (if ltb v 48 then isr v else 0))
      × ((gate (idt_init isr address s) v).flags ≡ (if ltb v 48 then 0x8E else 0))
      × ((gate (idt_init isr address s) v).selector ≡ (if ltb v 48 then kernel_code_segment else 0))
      × ((gate (idt_init isr address s) v).zero_byte ≡ 0)
      × (get_interrupt_handler v (idt_init isr address s) ≡ 0)
unfolding idt_init get_interrupt_handler
idt_init-gates isr address v s li lh hv hi =
    let s0 : Idt = record s { ptr_limit = 8 * idt_entries - 1; ptr_base = address } in
    let cleared = clear_entries 0 idt_entries s0 in
    let same_gate : gate (idt_init isr address s) v
        ≡ (if ltb v 48 then stub_gate isr v else no_gate) =
      gate-stubs isr 0 48 v cleared (omega (arith, length-clear 0 idt_entries s0))
      ∙ rw (gate-clear 0 idt_entries v s0 (omega arith)) (ground arith) in
    let parts = if_gate (ltb v 48) (isr v) hi in
    let no_handler =
      ap (λ hs. get_or hs (v % 256) 0) (handlers-stubs isr 0 48 cleared)
      ∙ get_interrupt_handler-clear 0 idt_entries (v % 256) s0 (omega arith)
      ∙ ground arith in
    (
      rw same_gate parts.0,
      rw same_gate parts.1,
      rw same_gate parts.2,
      rw same_gate parts.3,
      no_handler,
    )
