-- ===== src/Console/Clock.antt =====
-- kernel.c: the strings of the time and of the date, for the bytes that the clock's registers give.
use tark_os.Prelude.{ℕ, ◌+◌, ◌*◌, ◌/◌, ◌%◌, ◌<◌, ◌≡◌, arith, [], ◌∷◌}
use tark_os.Text.{CString}

-- `((v & 0xF0) >> 1) + ((v & 0xF0) >> 3) + (v & 0x0F)`
unfoldable pub bcd_to_bin : ℕ → ℕ
bcd_to_bin v = (v / 16 % 16 * 16 / 2 + v / 16 % 16 * 16 / 8 + v % 16) % 256

abbrev pub digit : ℕ → ℕ
digit n = n + b'0'

-- The hours, minutes and seconds are registers 4, 2 and 0.
unfoldable pub get_time_str : ℕ → ℕ → ℕ → CString
unfolding bcd_to_bin
get_time_str hours minutes seconds =
    let h = (bcd_to_bin hours + 3) % 24 in
    let m = bcd_to_bin minutes in
    let s = bcd_to_bin seconds in
    digit (h / 10)
    ∷ digit (h % 10)
    ∷ b':'
    ∷ digit (m / 10)
    ∷ digit (m % 10)
    ∷ b':'
    ∷ digit (s / 10)
    ∷ digit (s % 10)
    ∷ []

-- The day, month and year are registers 7, 8 and 9.
unfoldable pub get_date_str : ℕ → ℕ → ℕ → CString
unfolding bcd_to_bin
get_date_str day_reg month_reg year_reg =
    let day = bcd_to_bin day_reg in
    let mon = bcd_to_bin month_reg in
    let year = 2000 + bcd_to_bin year_reg in
    digit (year / 1000 % 10)
    ∷ digit (year / 100 % 10)
    ∷ digit (year / 10 % 10)
    ∷ digit (year % 10)
    ∷ b'-'
    ∷ digit (mon / 10)
    ∷ digit (mon % 10)
    ∷ b'-'
    ∷ digit (day / 10)
    ∷ digit (day % 10)
    ∷ []

-- Two decimal digits in the halves of a byte are read as their number.
pub bcd_to_bin_lem :
    (tens units : ℕ) → tens < 10 → units < 10 → bcd_to_bin (tens * 16 + units) ≡ tens * 10 + units
unfolding bcd_to_bin
bcd_to_bin_lem tens units h k = omega arith
