-- ===== src/Shell/Numbers.antt =====
-- HW1: the numbers that `strtol` and `atoi` read from an argument, for HW1/KillCommand.cpp,
-- HW1/ForegroundCommand.cpp and HW1/BackgroundCommand.cpp. `long` has 64 bits, `int` 32.
use operating_system_whw.Common.{
  ℕ, ◌+◌, ◌*◌, ◌-◌, ◌%◌, ◌^◌, zero, suc, Bool, true, false, not, ◌&&◌, [], ◌∷◌, ℤ, pos, negsuc, ltb,
  ◌==◌, if◌then◌else◌,
}
use operating_system_whw.Shell.Trace.{Bytes}
use operating_system_whw.Shell.Text.{is_white}

abbrev pub is_digit : ℕ → Bool
is_digit c = not (ltb c b'0') && not (ltb b'9' c)

-- The value of the digits at the front, after those that made `value`, and the text behind them.
unfoldable pub read_digits : (value : ℕ) → Bytes → ℕ × Bytes
read_digits value [] = (value, [])
read_digits value (c ∷ s) =
    if is_digit c then read_digits (value * 10 + (c - b'0')) s else (value, c ∷ s)

-- `strtol` of base 10: the value, whether there was a digit, and the text at `endPointer`.
pub record Number : Type 0 where
  pub value : ℤ
  pub converted : Bool
  pub rest : Bytes

-- The limits of `long`
long_of : (negative : Bool) → ℕ → ℤ
long_of false n = pos (if ltb n (2 ^ 63) then n else 2 ^ 63 - 1)
long_of true zero = pos 0
long_of true (suc n) = negsuc (if ltb n (2 ^ 63) then n else 2 ^ 63 - 1)

-- At the first byte behind the sign; `whole` is the text, which stays where there is no digit.
digits_of : (negative : Bool) → (whole text : Bytes) → Number
digits_of negative whole [] = record { value = pos 0; converted = false; rest = whole }
digits_of negative whole (c ∷ s) =
    if is_digit c
    then (let r = read_digits 0 (c ∷ s) in
        record { value = long_of negative r.0; converted = true; rest = r.1 })
    else record { value = pos 0; converted = false; rest = whole }

sign_of : (whole text : Bytes) → Number
sign_of whole [] = record { value = pos 0; converted = false; rest = whole }
sign_of whole (c ∷ s) =
    if c == b'-'
    then digits_of true whole s
    else if c == b'+'
    then digits_of false whole s
    else digits_of false whole (c ∷ s)

skip_white : Bytes → Bytes
skip_white [] = []
skip_white (c ∷ s) = if is_white c then skip_white s else c ∷ s

unfoldable pub strtol : Bytes → Number
unfolding long_of digits_of sign_of skip_white read_digits is_white
strtol s = sign_of s (skip_white s)

-- A `long` that is stored in an `int` keeps its 32 low bits.
abbrev pub signed : ℕ → ℤ
signed low = if ltb low (2 ^ 31) then pos low else negsuc (2 ^ 32 - 1 - low)

abbrev pub to_int : ℤ → ℤ
to_int (pos n) = signed (n % 2 ^ 32)
to_int (negsuc n) = signed (2 ^ 32 - 1 - n % 2 ^ 32)

unfoldable pub atoi : Bytes → ℤ
atoi s = to_int (strtol s).value
