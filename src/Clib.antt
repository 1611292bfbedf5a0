-- ===== src/Clib.antt =====
-- kernel/lib/string.c: memory and string functions. Memory is a list of bytes and a pointer a place
-- in it; a string that is only read is the list of its bytes before the NUL. A `char` is compared
-- as the byte it is. Reading outside the memory gives 0 and writing there changes nothing; the
-- theorems carry the bounds.
pub mod Copy
pub mod Bounded
pub mod Number
pub mod NumberLaws
pub mod Print
pub mod PrintLaws
mod Tests
use tark_os.Prelude.{
  ◌^◌, length, ℕ, zero, suc, ◌+◌, ◌-◌, ◌*◌, ◌/◌, ◌%◌, Bool, ◌&&◌, ltb, leb, ◌==◌, if◌then◌else◌,
}
use tark_os.Prelude.{Option, none, some, List, [], ◌∷◌, get_or, set}
use tark_os.Prelude.Int.{ℤ, pos, negsuc, ◌-ℤ◌}
use tark_os.Text.{CString}

abbrev pub Memory : Type 0
Memory = List ℕ

abbrev pub byte_at : Memory → ℕ → ℕ
byte_at mem i = get_or mem i 0

-- `while (n--) *d++ = *s++;`
unfoldable pub copy_forward : Memory → ℕ → ℕ → ℕ → Memory
copy_forward mem d s zero = mem
copy_forward mem d s (suc n) = copy_forward (set mem d (byte_at mem s)) (d + 1) (s + 1) n

-- `*(uint32_t*)d = *(const uint32_t*)s;`, the four bytes read before they are written.
abbrev pub copy_word : Memory → ℕ → ℕ → Memory
copy_word mem d s =
    set
      (set (set (set mem d (byte_at mem s)) (d + 1) (byte_at mem (s + 1))) (d + 1 + 1)
        (byte_at mem (s + 1 + 1)))
      (d + 1 + 1 + 1) (byte_at mem (s + 1 + 1 + 1))

unfoldable pub copy_words : Memory → ℕ → ℕ → ℕ → Memory
copy_words mem d s zero = mem
copy_words mem d s (suc q) = copy_words (copy_word mem d s) (d + 4) (s + 4) q

unfoldable pub memcpy : Memory → ℕ → ℕ → ℕ → Memory
unfolding copy_forward copy_words
memcpy mem d s n =
    let words = n / 4 in
    if d % 4 == 0 && s % 4 == 0
    then copy_forward (copy_words mem d s words) (d + words * 4) (s + words * 4) (n % 4)
    else copy_forward mem d s n

-- `while (n--) *--d = *--s;` from the ends.
unfoldable pub copy_backward : Memory → ℕ → ℕ → ℕ → Memory
copy_backward mem d s zero = mem
copy_backward mem d s (suc n) = copy_backward (set mem (d + n) (byte_at mem (s + n))) d s n

unfoldable pub memmove : Memory → ℕ → ℕ → ℕ → Memory
unfolding copy_forward copy_backward
memmove mem d s n =
    if ltb d s then copy_forward mem d s n else if ltb s d then copy_backward mem d s n else mem

-- `while (n--) *d++ = val;`
unfoldable pub set_bytes : Memory → ℕ → ℕ → ℕ → Memory
set_bytes mem d val zero = mem
set_bytes mem d val (suc n) = set_bytes (set mem d val) (d + 1) val n

-- The four bytes of `val32` are `val`.
unfoldable pub set_words : Memory → ℕ → ℕ → ℕ → Memory
set_words mem d val zero = mem
set_words mem d val (suc q) =
    set_words (set (set (set (set mem d val) (d + 1) val) (d + 2) val) (d + 3) val) (d + 4) val q

unfoldable pub memset : Memory → ℕ → ℕ → ℕ → Memory
unfolding set_bytes set_words
memset mem d c n =
    let val = c % 256 in
    if d % 4 == 0 && leb 4 n
    then set_bytes (set_words mem d val (n / 4)) (d + n / 4 * 4) val (n % 4)
    else set_bytes mem d val n

unfoldable pub memcmp : Memory → ℕ → ℕ → ℕ → ℤ
memcmp mem p q zero = pos 0
memcmp mem p q (suc n) =
    let rest = memcmp mem (p + 1) (q + 1) n in
    if byte_at mem p == byte_at mem q then rest else pos (byte_at mem p) -ℤ pos (byte_at mem q)

unfoldable pub strcmp : CString → CString → ℤ
strcmp [] [] = pos 0
strcmp [] (b ∷ bs) = pos 0 -ℤ pos b
strcmp (a ∷ as') [] = pos a
strcmp (a ∷ as') (b ∷ bs) = if a == b then strcmp as' bs else pos a -ℤ pos b

unfoldable pub strncmp : CString → CString → ℕ → ℤ
strncmp s1 s2 zero = pos 0
strncmp [] [] (suc n) = pos 0
strncmp [] (b ∷ bs) (suc n) = pos 0 -ℤ pos b
strncmp (a ∷ as') [] (suc n) = pos a
strncmp (a ∷ as') (b ∷ bs) (suc n) = if a == b then strncmp as' bs n else pos a -ℤ pos b

-- `strcpy`: the bytes and the NUL.
unfoldable pub strcpy : Memory → ℕ → CString → Memory
strcpy mem d [] = set mem d 0
strcpy mem d (c ∷ cs) = strcpy (set mem d c) (d + 1) cs

-- `strncpy`. The first loop leaves `n` as it is at the NUL that it writes, so that the second one
-- writes `n` more.
unfoldable pub strncpy : Memory → ℕ → CString → ℕ → Memory
unfolding set_bytes
strncpy mem d src zero = mem
strncpy mem d [] (suc n) = set_bytes (set mem d 0) (d + 1) 0 (suc n)
strncpy mem d (c ∷ cs) (suc n) = strncpy (set mem d c) (d + 1) cs n

-- `memsetw` and `memsetl`, over a memory of cells of 16 and of 32 bits.
unfoldable pub memsetw : List ℕ → ℕ → ℕ → ℕ → List ℕ
unfolding set_bytes
memsetw cells d val n = set_bytes cells d (val % 2 ^ 16) n

unfoldable pub memsetl : List ℕ → ℕ → ℕ → ℕ → List ℕ
unfolding set_bytes
memsetl cells d val n = set_bytes cells d (val % 2 ^ 32) n

-- `strcat` onto a string at `d`, which is given too.
unfoldable pub strcat : Memory → ℕ → CString → CString → Memory
unfolding strcpy
strcat mem d dest src = strcpy mem (d + length dest) src

-- The place of a character: `c` is not 0.
unfoldable pub strchr : CString → ℕ → Option ℕ
strchr [] c = none
strchr (b ∷ bs) c =
    let rest = strchr bs c in
    if b == c then some 0 else elim rest [ none ↦ none | some i ↦ some (suc i) ]

unfoldable pub strrchr : CString → ℕ → Option ℕ
strrchr [] c = none
strrchr (b ∷ bs) c = elim (strrchr bs c) [
  | some i ↦ some (suc i)
  | none ↦ if b == c then some 0 else none
]
