-- ===== src/Prelude/Decimal.antt =====
-- `strconv.Itoa` and `strconv.Atoi`: an integer in decimal digits, and back.
pub mod RoundTrip
use Prim.Native.Nat.{ℕ, zero, suc, ◌+◌, ◌-◌, ◌*◌, ◌/◌, ◌%◌, ◌^◌}
use Prim.Native.Char.{Char, code}
use Prim.Native.String.{String, ◌++◌}
use mathlib.Core.Bool.{Bool, true, false, ◌&&◌}
use mathlib.Core.Option.{Option, none, some}
use netvantage.Prelude.Tests.{ltb, leb, nat_beq, if◌then◌else◌}
use netvantage.Prelude.Int.{ℤ, pos, negsuc}

-- The character at a position; the last one behind the end.
char_at : ℕ → Char → String → Char
char_at n c String.[] = c
char_at zero c (String.◌∷◌ d s) = d
char_at (suc n) c (String.◌∷◌ d s) = char_at n d s

digit : ℕ → String
unfolding char_at
digit n = String.◌∷◌ (char_at n "0" "0123456789") String.[]

-- The fuel is the number itself, which is at least the number of its digits less one.
digits : ℕ → ℕ → String
digits zero n = digit n
digits (suc fuel) n =
    let front = digits fuel (n / 10) in if ltb n 10 then digit n else front ++ digit (n % 10)

unfoldable pub itoa : ℤ → String
unfolding digits digit
itoa (pos n) = digits n n
itoa (negsuc n) = "-" ++ digits (suc n) (suc n)

-- The number that a text of digits spells behind the digits of `n`.
read_digits : String → ℕ → Option ℕ
read_digits String.[] n = some n
read_digits (String.◌∷◌ c s) n =
    let rest = read_digits s (n * 10 + (code c - b'0')) in
    if leb b'0' (code c) && leb (code c) b'9' then rest else none

read_nat : String → Option ℕ
read_nat String.[] = none
read_nat (String.◌∷◌ c s) = read_digits (String.◌∷◌ c s) 0

-- -n, as an integer.
abbrev negated : ℕ → ℤ
negated zero = pos 0
negated (suc n) = negsuc n

-- A sign and digits, of any length.
unfoldable pub read_int : String → Option ℤ
unfolding read_nat read_digits
read_int String.[] = none
read_int (String.◌∷◌ c s) =
    if nat_beq (code c) b'-'
    then (elim (read_nat s) [ none ↦ none | some n ↦ some (negated n) ])
    else if nat_beq (code c) b'+'
    then (elim (read_nat s) [ none ↦ none | some n ↦ some (pos n) ])
    else (elim (read_nat (String.◌∷◌ c s)) [ none ↦ none | some n ↦ some (pos n) ])

-- Whether an integer is an int64.
abbrev pub fits_int64 : ℤ → Bool
fits_int64 (pos n) = ltb n (2 ^ 63)
fits_int64 (negsuc n) = ltb n (2 ^ 63)

unfoldable pub atoi : String → Option ℤ
atoi s = elim (read_int s) [ none ↦ none | some n ↦ if fits_int64 n then some n else none ]
