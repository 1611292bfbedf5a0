-- ===== src/Shell.antt =====
-- kernel/kernel.c: the keys of the shell and of its editor. A scan code is a byte, and 0 where the
-- keyboard has none; a `char` is a byte, so that -1 and -2 are 255 and 254.
pub mod Editor
pub mod EditorLaws
pub mod Line
pub mod LineLaws
pub mod History
pub mod Help
pub mod Session
pub mod FileCommands
pub mod InfoCommands
pub mod Dispatch
pub mod DispatchLaws
pub mod SessionLaws
pub mod CommandLaws
pub mod RoundLaws
pub mod CatLaws
pub mod ReadLaws
pub mod Boot
pub mod BootLaws
pub mod Listing
pub mod EntryLaws
pub mod ListingLaws
pub mod ShownLaws
mod Tests
use tark_os.Prelude.{
  ◌≡◌, ◌↔◌, ◌⊎◌, inl, inr, arith, ℕ, Bool, true, false, ◌&&◌, ◌||◌, not, leb, ◌==◌, if◌then◌else◌,
}
use tark_os.Prelude.{Option, none, some, List, [], ◌∷◌, ◌++◌, codes, get_or}
use tark_os.Text.{CString}

abbrev pub plain_keys : List ℕ
plain_keys =
    0 ∷ 27 ∷ codes "1234567890-="
    ++ 8 ∷ 9 ∷ codes "qwertyuiop[]"
    ++ 10 ∷ 0 ∷ codes "asdfghjkl;'`"
    ++ 0 ∷ codes "\\zxcvbnm,./"
    ++ 0 ∷ 42 ∷ 0 ∷ 32 ∷ []

abbrev pub shifted_keys : List ℕ
shifted_keys =
    0 ∷ 27 ∷ codes "!@#$%^&*()_+"
    ++ 8 ∷ 9 ∷ codes "QWERTYUIOP{}"
    ++ 10 ∷ 0 ∷ codes "ASDFGHJKL:\"~"
    ++ 0 ∷ codes "|ZXCVBNM<>?"
    ++ 0 ∷ 42 ∷ 0 ∷ 32 ∷ []

-- Nothing, where the code reads behind the end of its table.
unfoldable pub scancode_to_char : ℕ → Bool → Option ℕ
scancode_to_char sc shift =
    if sc == 0x48
    then some 255
    else if sc == 0x50
    then some 254
    else if leb 58 sc && not (sc == 0x0F) && not (sc == 0x3C) && not (sc == 0x44)
    then some 0
    else if leb 58 sc
    then none
    else some (if shift then get_or shifted_keys sc 0 else get_or plain_keys sc 0)

-- `sc == 0x2A || sc == 0x36` and `sc == 0xAA || sc == 0xB6`.
abbrev pub is_shift_down : ℕ → Bool
is_shift_down sc = sc == 0x2A || sc == 0x36

abbrev pub is_shift_up : ℕ → Bool
is_shift_up sc = sc == 0xAA || sc == 0xB6

-- Translating a scan code reads behind the end of the table for the keys F2 and F10, and for no
-- other.
pub scancode_to_char-none :
    (sc : ℕ) (shift : Bool) → (scancode_to_char sc shift ≡ none) ↔ ((sc ≡ 0x3C) ⊎ (sc ≡ 0x44))
unfolding scancode_to_char
scancode_to_char-none sc shift = (λ h. ground (arith, h), λ h. ground (arith, h))
