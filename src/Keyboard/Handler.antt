-- ===== src/Keyboard/Handler.antt =====
-- keyboard.c: what the handler makes of a byte, and what `keyboard_getchar` returns.
use tark_os.Prelude.{
  ℕ, zero, suc, ◌%◌, ◌<◌, ◌≡◌, ◌≢◌, refl, sym, ◌∙◌, ap, arith, ◌⊎◌, inl, inr, ◌-◌,
}
use tark_os.Prelude.{Bool, true, false, not, ◌&&◌, ◌||◌, leb, ltb, ◌==◌, Bool-cases, if◌then◌else◌}
use tark_os.Prelude.{List, [], ◌∷◌, ◌++◌, length}
use mathlib.Core.Path.{subst}
use tark_os.Keyboard.{
  KeyEvent, Keyboard, key_buffer_size, buffer_pop, getchar_loop, keyboard_getchar, keyboard_handler,
  event_of, ascii_of, upper_of, lower_of, xor, key_lshift, key_rshift, key_ctrl, key_alt,
  key_capslock,
}
use tark_os.Keyboard.Queue.{
  IsValid, queue, length-queue, Pushes, buffer_push-Pushes, buffer_pop-Pops,
}

-- The character of a key is that of the upper table exactly if one of shift and caps lock is on,
-- whether the key is a letter or not, and else that of the lower table.
pub ascii_of_lem :
    (s : Keyboard) (key : ℕ)
    → ascii_of s key ≡ (if xor s.shift_pressed s.capslock_on then upper_of key else lower_of key)
unfolding ascii_of
ascii_of_lem s key = split s.shift_pressed s.capslock_on (upper_of key) (lower_of key)
  where
    split :
        (shift caps : Bool) (up low : ℕ)
        → (let ascii = if xor shift caps then up else low in
            if (leb 65 ascii && leb ascii 90) && (not shift && caps)
            then ascii
            else if (leb 97 ascii && leb ascii 122) && (shift && caps)
            then low
            else ascii)
          ≡ (if xor shift caps then up else low)
    split true true up low = ground arith
    split true false up low = ground arith
    split false true up low = ground arith
    split false false up low = ground arith

abbrev pub is_modifier : ℕ → Bool
is_modifier key =
    (key == key_lshift || key == key_rshift)
    || (key == key_ctrl || (key == key_alt || key == key_capslock))

-- The bytes of the keys that are not modifiers add an event; the others change the modifiers only.
abbrev HandlesEvent : Keyboard → ℕ → Type 0
HandlesEvent s byte =
    IsValid (keyboard_handler s byte)
    × ((is_modifier (byte % 128) ≡ true) → queue (keyboard_handler s byte) ≡ queue s)
    × ((is_modifier (byte % 128) ≡ false)
        → Pushes s (event_of s (byte % 128) (leb 128 byte)) (keyboard_handler s byte))

handler-HandlesEvent : (s : Keyboard) (byte : ℕ) → IsValid s → HandlesEvent s byte
unfolding keyboard_handler
handler-HandlesEvent s byte v =
    let key = byte % 128 in
    elim (Bool-cases (key == key_lshift || key == key_rshift)) [
      | inl shift ↦ rw shift (keeps v, λ m. refl, λ m. cc m)
      | inr a ↦ elim (Bool-cases (key == key_ctrl)) [
        | inl ctrl ↦ rw (a, ctrl) (keeps v, λ m. refl, λ m. cc m)
        | inr b ↦ elim (Bool-cases (key == key_alt)) [
          | inl alt ↦ rw (a, b, alt) (keeps v, λ m. refl, λ m. cc m)
          | inr c ↦ elim (Bool-cases (key == key_capslock)) [
            | inl caps ↦
                rw (a, b, c, caps)
                  (elim (Bool-cases (leb 128 byte)) [
                    | inl up ↦ rw up (v, λ m. refl, λ m. cc m)
                    | inr down ↦ rw down (keeps v, λ m. refl, λ m. cc m)
                  ])
            | inr d ↦
                let pushed = buffer_push-Pushes s (event_of s key (leb 128 byte)) v in
                rw (a, b, c, d) (pushed.0, λ m. cc m, λ m. pushed)
          ]
        ]
      ]
    ]
  where
    keeps :
        {shift ctrl alt caps : Bool}
        → IsValid s
        → IsValid (record s {
          shift_pressed = shift;
          ctrl_pressed = ctrl;
          alt_pressed = alt;
          capslock_on = caps;
        })
    keeps v = record { buffer = v.buffer; head = v.head; tail = v.tail }

-- The event of a byte: the key is its low 7 bits, the eighth is set where the key is released, the
-- character is that of the upper table exactly if one of shift and caps lock is on.
abbrev pub described_event : Keyboard → ℕ → KeyEvent
described_event s byte = record {
  scancode = byte % 128;
  ascii =
      if xor s.shift_pressed s.capslock_on then upper_of (byte % 128) else lower_of (byte % 128);
  pressed = ltb byte 128;
  shift = s.shift_pressed;
  ctrl = s.ctrl_pressed;
  alt = s.alt_pressed;
}

event_of-described :
    (s : Keyboard) (byte : ℕ) → event_of s (byte % 128) (leb 128 byte) ≡ described_event s byte
unfolding event_of
event_of-described s byte =
    let down : not (leb 128 byte) ≡ ltb byte 128 = ground arith in
    rw (ascii_of_lem s (byte % 128), down) refl

-- What a byte does: it leaves the queue, or pushes its event.
abbrev pub Handles : Keyboard → ℕ → Type 0
Handles s byte =
    IsValid (keyboard_handler s byte)
    × ((is_modifier (byte % 128) ≡ true) → queue (keyboard_handler s byte) ≡ queue s)
    × ((is_modifier (byte % 128) ≡ false)
        → ((length (queue s) < key_buffer_size - 1)
            × (queue (keyboard_handler s byte) ≡ queue s ++ described_event s byte ∷ []))
          ⊎ ((length (queue s) ≡ key_buffer_size - 1) × (keyboard_handler s byte ≡ s)))

-- The byte of a modifier key leaves the queue of a valid keyboard as it is. The byte of any other
-- key adds, behind the queue, the event with its key, its character, whether it is pressed, and the
-- modifiers, where the queue has fewer than KEY_BUFFER_SIZE - 1 events; else nothing changes. The
-- keyboard stays valid.
pub keyboard_handler-Handles : (s : Keyboard) (byte : ℕ) → IsValid s → Handles s byte
keyboard_handler-Handles s byte v =
    let (valid, modifier, other) = handler-HandlesEvent s byte v in
    (
      valid,
      modifier,
      λ plain.
          subst
            (λ e.
              ((length (queue s) < key_buffer_size - 1)
                × (queue (keyboard_handler s byte) ≡ queue s ++ e ∷ []))
              ⊎ ((length (queue s) ≡ key_buffer_size - 1) × (keyboard_handler s byte ≡ s)))
            (event_of-described s byte) (other plain).1,
    )

abbrev pub is_typed : KeyEvent → Bool
is_typed e = e.pressed && not (e.ascii == 0)

-- The character of the first pressed event that has one, 0 without any, and the events behind it.
abbrev pub first_char : List KeyEvent → List KeyEvent × ℕ
first_char [] = ([], 0)
first_char (e ∷ es) = let rest = first_char es in if is_typed e then (es, e.ascii) else rest

getchar_loop_lem :
    (fuel : ℕ) (s : Keyboard)
    → IsValid s
    → length (queue s) < fuel
    → (queue (getchar_loop fuel s).0, (getchar_loop fuel s).1) ≡ first_char (queue s)
unfolding getchar_loop
getchar_loop_lem zero s v enough = absurd (omega arith)
getchar_loop_lem (suc fuel) s v enough =
    let (valid, cases) = buffer_pop-Pops s v in
    elim cases [
      | inl (empty, nothing, same) ↦ rw (nothing, getchar_loop, empty) refl
      | inr (e, event, first) ↦
          let fewer : suc (length (queue (buffer_pop s).0)) ≡ length (queue s) =
            sym (ap length first) in
          let later = getchar_loop_lem fuel (buffer_pop s).0 valid (omega arith) in
          rw (event, getchar_loop, first)
            (elim (Bool-cases (is_typed e)) [
              | inl typed ↦ rw typed refl
              | inr skipped ↦ rw skipped later
            ])
    ]

-- On a valid keyboard, `keyboard_getchar` returns the character of the first pressed event of the
-- queue that has one, and takes it and all before it off; without such an event it returns 0 and
-- leaves the queue empty.
pub keyboard_getchar_lem :
    (s : Keyboard)
    → IsValid s
    → (queue (keyboard_getchar s).0, (keyboard_getchar s).1) ≡ first_char (queue s)
unfolding keyboard_getchar
keyboard_getchar_lem s v =
    getchar_loop_lem key_buffer_size s v (omega (arith, length-queue s, v.head, v.tail))

not_leb : (a b : ℕ) → a < b → leb b a ≡ false
not_leb a b h = ground arith

first_of : (e : KeyEvent) → is_typed e ≡ true → (first_char (e ∷ [])).1 ≡ e.ascii
first_of e typed = rw typed refl

typed : (s : Keyboard) (key : ℕ) → ascii_of s key ≢ 0 → is_typed (event_of s key false) ≡ true
unfolding event_of
typed s key char = ground arith

-- On a valid keyboard with an empty queue, after the byte of a pressed key that is no modifier and
-- has a character, `keyboard_getchar` returns that character.
pub getchar-handler :
    (s : Keyboard) (byte : ℕ)
    → IsValid s
    → queue s ≡ []
    → byte < 128
    → is_modifier byte ≡ false
    → ascii_of s byte ≢ 0
    → (keyboard_getchar (keyboard_handler s byte)).1 ≡ ascii_of s byte
unfolding event_of
getchar-handler s byte v empty down plain char =
    let key : byte % 128 ≡ byte = omega arith in
    let pressed : leb 128 byte ≡ false = not_leb byte 128 down in
    let (valid, modifier, other) = handler-HandlesEvent s byte v in
    let (valid', pushed) = other (rw key plain) in
    elim (rw (key, pressed) at pushed) [
      | inr (full, same) ↦ absurd (omega (arith, full, ap length empty))
      | inl (room, added) ↦
          ap (λ (p : List KeyEvent × ℕ). p.1) (keyboard_getchar_lem (keyboard_handler s byte) valid)
          ∙ ap (λ q. (first_char q).1) (added ∙ ap (λ q. q ++ event_of s byte false ∷ []) empty)
          ∙ first_of (event_of s byte false) (typed s byte char)
    ]
