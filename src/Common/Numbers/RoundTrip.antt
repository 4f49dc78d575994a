-- ===== src/Common/Numbers/RoundTrip.antt =====
-- What strconv.Itoa writes, strconv.Atoi reads back.
use native.Mathlib.Omega.{arith}
use hamsterd.Common.Tests.{ltb, Bool-cases}
use hamsterd.Common.Lists.{All}
use hamsterd.Common.Int.{pos, negsuc}
use hamsterd.Common.Strings.{Text, is_digit}
use hamsterd.Common.Numbers.{
  digits_value, parse_digits, parse_int, nonnegative, format_loop, format_int,
}
use Prim.Native.Nat.{ℕ, zero, suc, ◌+◌, ◌/◌, ◌%◌, ◌^◌, ◌<◌}
use mathlib.Core.Path.{◌≡◌, ◌∙◌}
use mathlib.Core.Logic.{inl, inr}
use mathlib.Core.Bool.{true}
use mathlib.Core.List.{[], ◌∷◌}
use mathlib.Core.Option.{some}

abbrev pub IsDigit : ℕ → Type 0
IsDigit c = is_digit c ≡ true

-- One digit or more, and nothing else.
abbrev pub IsNumeral : Text → Type 0
IsNumeral [] = ⊥
IsNumeral (c ∷ s) = IsDigit c × All IsDigit s

IsDigit-mod : (n : ℕ) → IsDigit (48 + n % 10)
unfolding is_digit
IsDigit-mod n = ground (arith)

IsDigit-small : (n : ℕ) → ltb n 10 ≡ true → IsDigit (48 + n)
unfolding is_digit
IsDigit-small n small = ground (arith)

format_loop-IsNumeral :
    (fuel n : ℕ) (acc : Text) → n < fuel → All IsDigit acc → IsNumeral (format_loop fuel n acc)
unfolding format_loop
format_loop-IsNumeral zero n acc l h = ground (arith)
format_loop-IsNumeral (suc fuel) n acc l h = elim (Bool-cases (ltb n 10)) [
  | inl small ↦ rw (small, format_loop) (IsDigit-small n small, h)
  | inr large ↦
      rw (large, format_loop)
        (format_loop-IsNumeral fuel (n / 10) ((48 + n % 10) ∷ acc) (ground (arith, large))
          (IsDigit-mod n, h))
]

digits_value-format_loop :
    (fuel n : ℕ) (acc : Text)
    → n < fuel
    → digits_value 0 (format_loop fuel n acc) ≡ digits_value n acc
unfolding format_loop digits_value is_digit
digits_value-format_loop zero n acc l = ground (arith)
digits_value-format_loop (suc fuel) n acc l = elim (Bool-cases (ltb n 10)) [
  | inl small ↦ rw (small, format_loop) (ground (arith))
  | inr large ↦
      rw (large, format_loop)
        (digits_value-format_loop fuel (n / 10) ((48 + n % 10) ∷ acc) (ground (arith, large))
          ∙ ground (arith))
]

pub format_int-IsNumeral : (n : ℕ) → IsNumeral (format_int (pos n))
unfolding format_int
format_int-IsNumeral n = format_loop-IsNumeral (suc n) n [] (ground (arith)) tt

parse_int_numeral : (s : Text) → IsNumeral s → parse_int s ≡ nonnegative (digits_value 0 s)
unfolding parse_int parse_digits is_digit
parse_int_numeral [] h = absurd h
parse_int_numeral (c ∷ s) h = ground (arith)

digits_value-format_int : (n : ℕ) → digits_value 0 (format_int (pos n)) ≡ some n
unfolding format_int digits_value
digits_value-format_int n = digits_value-format_loop (suc n) n [] (ground (arith))

pub parse_int-format_int : (n : ℕ) → n < 2 ^ 63 → parse_int (format_int (pos n)) ≡ some (pos n)
parse_int-format_int n l =
    parse_int_numeral (format_int (pos n)) (format_int-IsNumeral n)
    ∙ rw (digits_value-format_int n) (ground (arith))

parse_negative :
    (s : Text) (n : ℕ)
    → IsNumeral s
    → n < 2 ^ 63
    → digits_value 0 s ≡ some (suc n)
    → parse_int (b'-' ∷ s) ≡ some (negsuc n)
unfolding parse_int parse_digits
parse_negative [] n h l e = absurd h
parse_negative (c ∷ s) n h l e = rw e (ground (arith))

digits_suc : (n : ℕ) → digits_value 0 (format_loop (suc (suc n)) (suc n) []) ≡ some (suc n)
unfolding digits_value
digits_suc n = digits_value-format_loop (suc (suc n)) (suc n) [] (ground (arith))

pub parse_int-format_int_negative :
    (n : ℕ) → n < 2 ^ 63 → parse_int (format_int (negsuc n)) ≡ some (negsuc n)
unfolding parse_int parse_digits format_int
parse_int-format_int_negative n l =
    parse_negative (format_loop (suc (suc n)) (suc n) []) n
      (format_loop-IsNumeral (suc (suc n)) (suc n) [] (ground (arith)) tt) l (digits_suc n)
