-- ===== src/Prelude/Decimal/RoundTrip.antt =====
-- Reading what Itoa writes.
use Prim.Native.Nat.{ℕ, zero, suc, ◌+◌, ◌-◌, ◌*◌, ◌/◌, ◌%◌, ◌≤◌, ◌<◌}
use Prim.Native.Char.{Char, code}
use Prim.Native.String.{String, ◌++◌}
use text.Mathlib.TextLemmas.{nil-append, cons-append}
use mathlib.Core.Path.{◌≡◌, refl, ap, ◌∙◌}
use mathlib.Core.Logic.{inl, inr}
use mathlib.Core.Bool.{true}
use mathlib.Core.Option.{none, some}
use native.Mathlib.Omega.{arith}
use netvantage.Prelude.Tests.{ltb, Bool-cases}
use netvantage.Prelude.Int.{ℤ, pos, negsuc}
use netvantage.Prelude.Text.{IsFreeOf, append-IsFreeOf}
use netvantage.Prelude.Decimal.{
  char_at, digit, digits, itoa, read_digits, read_nat, read_int, fits_int64, atoi,
}

digit_char : ℕ → Char
unfolding char_at
digit_char n = char_at n "0" "0123456789"

digit_char-code : (n : ℕ) → n < 10 → code (digit_char n) ≡ b'0' + n
unfolding digit_char
digit_char-code zero h = refl
digit_char-code (suc zero) h = refl
digit_char-code (suc (suc zero)) h = refl
digit_char-code (suc (suc (suc zero))) h = refl
digit_char-code (suc (suc (suc (suc zero)))) h = refl
digit_char-code (suc (suc (suc (suc (suc zero))))) h = refl
digit_char-code (suc (suc (suc (suc (suc (suc zero)))))) h = refl
digit_char-code (suc (suc (suc (suc (suc (suc (suc zero))))))) h = refl
digit_char-code (suc (suc (suc (suc (suc (suc (suc (suc zero)))))))) h = refl
digit_char-code (suc (suc (suc (suc (suc (suc (suc (suc (suc zero))))))))) h = refl
digit_char-code (suc (suc (suc (suc (suc (suc (suc (suc (suc (suc n)))))))))) h =
    absurd (omega arith)

read_digits-append :
    (s t : String) (n : ℕ)
    → read_digits (s ++ t) n ≡ (elim (read_digits s n) [ none ↦ none | some m ↦ read_digits t m ])
unfolding read_digits
read_digits-append String.[] t n = rw (nil-append t) refl
read_digits-append (String.◌∷◌ c s) t n =
    rw (cons-append c s t) (ground (arith, read_digits-append s t (n * 10 + (code c - b'0'))))

read_digits-digit : (d n : ℕ) → d < 10 → read_digits (digit d) n ≡ some (n * 10 + d)
unfolding read_digits digit digit_char
read_digits-digit d n h = ground (arith, digit_char-code d h)

-- The digits of a number are read back.
read_digits-digits : (fuel n : ℕ) → n ≤ fuel → read_digits (digits fuel n) 0 ≡ some n
unfolding digits
read_digits-digits zero n h = ground (arith, read_digits-digit n 0)
read_digits-digits (suc fuel) n h = elim (Bool-cases (ltb n 10)) [
  | inl small ↦ rw small (ground (arith, read_digits-digit n 0))
  | inr large ↦ rw large (
      rw (read_digits-append (digits fuel (n / 10)) (digit (n % 10)) 0) (
        rw (read_digits-digits fuel (n / 10) (ground arith))
          (ground (arith, read_digits-digit (n % 10) (n / 10)))))
]

-- The first character of the digits is a digit, so no sign, and there is one.
record Starts (s : String) : Type 0 where
  first : Char
  rest : String
  is : s ≡ String.◌∷◌ first rest
  low : b'0' ≤ code first

digits-Starts : (fuel n : ℕ) → n ≤ fuel → Starts (digits fuel n)
unfolding digits digit digit_char
digits-Starts zero n h = record {
  first = digit_char n;
  rest = String.[];
  is = refl;
  low = omega (arith, digit_char-code n (omega arith));
}
digits-Starts (suc fuel) n h = elim (Bool-cases (ltb n 10)) [
  | inl small ↦ rw small (record {
    first = digit_char n;
    rest = String.[];
    is = refl;
    low = ground (arith, digit_char-code n);
  })
  | inr large ↦
      let front = digits-Starts fuel (n / 10) (ground arith) in
      rw large (record {
        first = front.first;
        rest = front.rest ++ digit (n % 10);
        is = rw (front.is) (cons-append front.first front.rest (digit (n % 10)));
        low = front.low;
      })
]

read_nat-Starts : (s : String) → Starts s → read_nat s ≡ read_digits s 0
unfolding read_nat
read_nat-Starts s start = rw (start.is) refl

read_nat-digits : (n : ℕ) → read_nat (digits n n) ≡ some n
read_nat-digits n =
    read_nat-Starts (digits n n) (digits-Starts n n (omega arith))
    ∙ read_digits-digits n n (omega arith)

read_int-Starts : (s : String) (n : ℕ) → Starts s → read_nat s ≡ some n → read_int s ≡ some (pos n)
unfolding read_int
read_int-Starts s n start e =
    let first = start.first in
    let rest = start.rest in
    let e' : read_nat (String.◌∷◌ first rest) ≡ some n = rw (start.is) at e in
    rw (start.is) (ground (arith, e', start.low))

-- Every integer is read back from its decimal text.
pub read_int-itoa : (n : ℤ) → read_int (itoa n) ≡ some n
unfolding itoa read_int
read_int-itoa (pos n) =
    read_int-Starts (digits n n) n (digits-Starts n n (omega arith)) (read_nat-digits n)
read_int-itoa (negsuc n) =
    rw (cons-append "-" "" (digits (suc n) (suc n)))
      (rw (nil-append (digits (suc n) (suc n))) (rw (read_nat-digits (suc n), read_int) refl))

pub atoi-itoa : (n : ℤ) → fits_int64 n ≡ true → atoi (itoa n) ≡ some n
unfolding atoi
atoi-itoa n h = rw (read_int-itoa n, atoi) (rw h refl)

pub itoa-injective : (m n : ℤ) → itoa m ≡ itoa n → m ≡ n
itoa-injective m n e = cc (read_int-itoa m, read_int-itoa n, ap read_int e)

digit-IsFreeOf : (n : ℕ) → n < 10 → IsFreeOf b' ' (digit n)
unfolding digit digit_char
digit-IsFreeOf n h = (ground (arith, digit_char-code n h), tt)

digits-IsFreeOf : (fuel n : ℕ) → n ≤ fuel → IsFreeOf b' ' (digits fuel n)
unfolding digits
digits-IsFreeOf zero n h = digit-IsFreeOf n (omega arith)
digits-IsFreeOf (suc fuel) n h = elim (Bool-cases (ltb n 10)) [
  | inl small ↦ rw small (digit-IsFreeOf n (ground arith))
  | inr large ↦ rw large (
      append-IsFreeOf b' ' (digits fuel (n / 10)) (digit (n % 10))
        (digits-IsFreeOf fuel (n / 10) (ground arith)) (digit-IsFreeOf (n % 10) (ground arith)))
]

-- No decimal text holds a space.
pub itoa-IsFreeOf : (n : ℤ) → IsFreeOf b' ' (itoa n)
unfolding itoa
itoa-IsFreeOf (pos n) = digits-IsFreeOf n n (omega arith)
itoa-IsFreeOf (negsuc n) =
    append-IsFreeOf b' ' "-" (digits (suc n) (suc n)) (refl, tt)
      (digits-IsFreeOf (suc n) (suc n) (omega arith))
