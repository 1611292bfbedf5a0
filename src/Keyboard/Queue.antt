-- ===== src/Keyboard/Queue.antt =====
-- keyboard.c: the ring buffer is a queue of at most KEY_BUFFER_SIZE - 1 events.
use tark_os.Prelude.{
  ℕ, zero, suc, ◌+◌, ◌-◌, ◌%◌, ◌<◌, ◌≡◌, ◌≢◌, refl, ◌∙◌, ap, arith, ◌⊎◌, inl, inr,
}
use tark_os.Prelude.{◌==◌, Bool-cases, none, some}
use tark_os.Prelude.{
  List, [], ◌∷◌, ◌++◌, length, length-set, get_or, set, get_or-set_self, get_or-set_ne,
}
use tark_os.Keyboard.{KeyEvent, Keyboard, no_event, key_buffer_size, buffer_push, buffer_pop}

pub record IsValid (s : Keyboard) : Type 0 where
  pub buffer : length s.key_buffer ≡ key_buffer_size
  pub head : s.buffer_head < key_buffer_size
  pub tail : s.buffer_tail < key_buffer_size

-- `n` events of the buffer from `tail` on.
unfoldable pub events_from : List KeyEvent → ℕ → ℕ → List KeyEvent
events_from buf tail zero = []
events_from buf tail (suc n) =
    get_or buf tail no_event ∷ events_from buf ((tail + 1) % key_buffer_size) n

-- The number of events between the tail and the head.
abbrev pub count : Keyboard → ℕ
count s = (s.buffer_head + key_buffer_size - s.buffer_tail) % key_buffer_size

-- The queue that the buffer holds, the oldest event first.
abbrev pub queue : Keyboard → List KeyEvent
queue s = events_from s.key_buffer s.buffer_tail (count s)

length-events_from : (buf : List KeyEvent) (t n : ℕ) → length (events_from buf t n) ≡ n
unfolding events_from
length-events_from buf t zero = refl
length-events_from buf t (suc n) = ap suc (length-events_from buf ((t + 1) % key_buffer_size) n)

pub length-queue : (s : Keyboard) → length (queue s) ≡ count s
length-queue s = length-events_from s.key_buffer s.buffer_tail (count s)

-- Writing the event behind the last of `n` adds it at the end.
events_from-set :
    (buf : List KeyEvent) (t n h : ℕ) (e : KeyEvent)
    → length buf ≡ key_buffer_size
    → t < key_buffer_size
    → n < key_buffer_size
    → h ≡ (t + n) % key_buffer_size
    → events_from (set buf h e) t (suc n) ≡ events_from buf t n ++ e ∷ []
unfolding events_from
events_from-set buf t zero h e size lt small at =
    let here : h ≡ t = omega arith in
    ap (λ x. x ∷ []) (rw here (get_or-set_self buf t e no_event (omega arith)))
events_from-set buf t (suc n) h e size lt small at =
    let other : h ≢ t = λ same. omega arith in
    let later =
      events_from-set buf ((t + 1) % key_buffer_size) n h e size (omega arith) (omega arith)
        (omega arith) in
    rw (get_or-set_ne buf h t e no_event other, later) refl

-- What `buffer_push` does: the event is the queue's new last one, or the queue is full, with
-- KEY_BUFFER_SIZE - 1 events, and nothing changes.
abbrev pub Pushes : Keyboard → KeyEvent → Keyboard → Type 0
Pushes s e t =
    IsValid t
    × (((length (queue s) < key_buffer_size - 1) × (queue t ≡ queue s ++ e ∷ []))
        ⊎ ((length (queue s) ≡ key_buffer_size - 1) × (t ≡ s)))

-- On a valid buffer, `buffer_push` appends the event to the queue if it has fewer than
-- KEY_BUFFER_SIZE - 1 events, and else drops the event; the buffer stays valid.
pub buffer_push-Pushes : (s : Keyboard) (e : KeyEvent) → IsValid s → Pushes s e (buffer_push s e)
unfolding buffer_push
buffer_push-Pushes s e v =
    elim (Bool-cases ((s.buffer_head + 1) % key_buffer_size == s.buffer_tail)) [
      | inl full ↦ rw full (v, inr (ground (arith, length-queue s, v.head, v.tail), refl))
      | inr room ↦ rw room (
        record {
          buffer = length-set s.key_buffer s.buffer_head e ∙ v.buffer;
          head = omega arith;
          tail = v.tail;
        },
        inl (
          ground (arith, length-queue s, v.head, v.tail),
          ap (events_from (set s.key_buffer s.buffer_head e) s.buffer_tail)
                (ground (arith, v.head, v.tail))
              ∙ events_from-set s.key_buffer s.buffer_tail (count s) s.buffer_head e v.buffer v.tail
                  (omega arith) (omega (arith, v.head, v.tail)),
        ),
      )
    ]

events_from_none : (buf : List KeyEvent) (t n : ℕ) → n ≡ 0 → events_from buf t n ≡ []
unfolding events_from
events_from_none buf t n e = ap (events_from buf t) e

events_from_first :
    (buf : List KeyEvent) (t n m : ℕ)
    → n ≡ suc m
    → events_from buf t n ≡ get_or buf t no_event ∷ events_from buf ((t + 1) % key_buffer_size) m
unfolding events_from
events_from_first buf t n m e = ap (events_from buf t) e

-- What `buffer_pop` does: nothing to an empty queue, and else it takes the first event off.
abbrev pub Pops : Keyboard → Type 0
Pops s =
    let (t, event) = buffer_pop s in
    IsValid t
    × (((queue s ≡ []) × (event ≡ none) × (t ≡ s))
        ⊎ ((e : KeyEvent) × (event ≡ some e) × (queue s ≡ e ∷ queue t)))

-- On a valid buffer, `buffer_pop` returns the queue's first event and removes it, and returns
-- nothing exactly if the queue is empty; the buffer stays valid.
pub buffer_pop-Pops : (s : Keyboard) → IsValid s → Pops s
unfolding buffer_pop
buffer_pop-Pops s v = elim (Bool-cases (s.buffer_tail == s.buffer_head)) [
  | inl empty ↦
      rw empty (v, inl (events_from_none _ _ _ (ground (arith, v.head, v.tail)), refl, refl))
  | inr more ↦ rw more (
    record { buffer = v.buffer; head = v.head; tail = omega arith },
    inr (
      get_or s.key_buffer s.buffer_tail no_event,
      refl,
      events_from_first _ _ _ _ (ground (arith, v.head, v.tail)),
    ),
  )
]
