-- ===== src/Common/Numbers.antt =====
-- Package strconv: ParseInt and FormatInt in base 10 at 64 bits.
pub mod RoundTrip
use Prim.Native.Nat.{ℕ, zero, suc, ◌+◌, ◌-◌, ◌*◌, ◌/◌, ◌%◌, ◌^◌}
use mathlib.Core.Bool.{true, false}
use mathlib.Core.List.{[], ◌∷◌}
use mathlib.Core.Option.{Option, none, some}
use hamsterd.Common.Int.{ℤ, pos, negsuc}
use hamsterd.Common.Tests.{ltb, ◌==◌, if◌then◌else◌}
use hamsterd.Common.Strings.{Text, is_digit}

digits_value : ℕ → Text → Option ℕ
digits_value acc [] = some acc
digits_value acc (c ∷ s) =
    let rest = digits_value (acc * 10 + (c - 48)) s in if is_digit c then rest else none

-- One digit at least.
unfoldable pub parse_digits : Text → Option ℕ
unfolding digits_value is_digit
parse_digits [] = none
parse_digits (c ∷ s) = digits_value 0 (c ∷ s)

abbrev nonnegative : Option ℕ → Option ℤ
nonnegative none = none
nonnegative (some n) = if ltb n (2 ^ 63) then some (pos n) else none

abbrev negative : Option ℕ → Option ℤ
negative none = none
negative (some zero) = some (pos 0)
negative (some (suc n)) = if ltb n (2 ^ 63) then some (negsuc n) else none

-- strconv.ParseInt(s, 10, 64), with its two errors as `none`; strconv.Atoi is the same.
unfoldable pub parse_int : Text → Option ℤ
unfolding parse_digits
parse_int [] = none
parse_int (c ∷ s) =
    if c == b'-'
    then negative (parse_digits s)
    else if c == b'+'
    then nonnegative (parse_digits s)
    else nonnegative (parse_digits (c ∷ s))

format_loop : ℕ → ℕ → Text → Text
format_loop zero n acc = acc
format_loop (suc fuel) n acc = elim (ltb n 10) [
  | true ↦ (48 + n) ∷ acc
  | false ↦ format_loop fuel (n / 10) ((48 + n % 10) ∷ acc)
]

-- strconv.FormatInt(z, 10)
unfoldable pub format_int : ℤ → Text
unfolding format_loop
format_int (pos n) = format_loop (suc n) n []
format_int (negsuc n) = b'-' ∷ format_loop (suc (suc n)) (suc n) []
