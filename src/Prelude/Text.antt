-- ===== src/Prelude/Text.antt =====
-- What the program uses of Go's `strings` package.
use Prim.Native.Nat.{ℕ}
use Prim.Native.Char.{Char, code}
use Prim.Native.String.{String, ◌++◌}
use mathlib.Core.Path.{◌≡◌, refl, sym, ap₂}
use mathlib.Core.Bool.{Bool, true, false, ◌&&◌, ◌||◌}
use mathlib.Core.Option.{Option, none, some}
use mathlib.Core.List.{List, [], ◌∷◌}
use text.Mathlib.TextLemmas.{nil-append, cons-append}
use text.Mathlib.TextEquality.{Char-path}
use mathlib.Core.Logic.{inl, inr}
use native.Mathlib.Omega.{arith}
use netvantage.Prelude.Tests.{leb, nat_beq, nat_beq_iff, Bool-cases, if◌then◌else◌}

-- What follows the prefix, if the text has it.
unfoldable pub strip_prefix : String → String → Option String
strip_prefix String.[] s = some s
strip_prefix (String.◌∷◌ c p) String.[] = none
strip_prefix (String.◌∷◌ c p) (String.◌∷◌ d s) =
    if nat_beq (code c) (code d) then strip_prefix p s else none

-- `strings.HasPrefix(s, p)`
abbrev pub has_prefix : String → String → Bool
has_prefix s p = elim (strip_prefix p s) [ none ↦ false | some t ↦ true ]

-- `strings.TrimPrefix(s, p)`
abbrev pub trim_prefix : String → String → String
trim_prefix s p = elim (strip_prefix p s) [ none ↦ s | some t ↦ t ]

pub strip_prefix-append : (p s : String) → strip_prefix p (p ++ s) ≡ some s
unfolding strip_prefix
strip_prefix-append String.[] s = rw (nil-append s)
strip_prefix-append (String.◌∷◌ c p) s =
    rw (cons-append c p s) (ground (arith, strip_prefix-append p s))

-- A text with the prefix is the prefix and what follows it.
pub append-strip_prefix : (p s t : String) → strip_prefix p s ≡ some t → s ≡ p ++ t
unfolding strip_prefix
append-strip_prefix String.[] s t h = rw (nil-append t) cc
append-strip_prefix (String.◌∷◌ c p) String.[] t h = cc
append-strip_prefix (String.◌∷◌ c p) (String.◌∷◌ d s) t h =
    elim (Bool-cases (nat_beq (code c) (code d))) [
      | inl e ↦ rw (cons-append c p t) (
          ap₂ String.◌∷◌ (Char-path d c (sym ((nat_beq_iff _ _).0 e)))
            (append-strip_prefix p s t (rw e at h)))
      | inr e ↦ cc (rw e at h)
    ]

other_case : String → String → Char → Char
other_case String.[] us c = c
other_case (String.◌∷◌ l ls) String.[] c = c
other_case (String.◌∷◌ l ls) (String.◌∷◌ u us) c =
    if nat_beq (code c) (code l) then u else other_case ls us c

lower_char : Char → Char
unfolding other_case
lower_char = other_case "ABCDEFGHIJKLMNOPQRSTUVWXYZ" "abcdefghijklmnopqrstuvwxyz"

map_text : (Char → Char) → String → String
map_text f String.[] = String.[]
map_text f (String.◌∷◌ c s) = String.◌∷◌ (f c) (map_text f s)

-- `strings.ToLower`, on the ASCII letters.
unfoldable pub to_lower : String → String
unfolding lower_char map_text
to_lower = map_text lower_char

upper_char : Char → Char
unfolding other_case
upper_char = other_case "abcdefghijklmnopqrstuvwxyz" "ABCDEFGHIJKLMNOPQRSTUVWXYZ"

-- `strings.ToUpper`, on the ASCII letters.
unfoldable pub to_upper : String → String
unfolding upper_char map_text
to_upper = map_text upper_char

-- `strings.Contains(s, p)`
unfoldable pub contains : String → String → Bool
contains p String.[] = has_prefix String.[] p
contains p (String.◌∷◌ c s) =
    let rest = contains p s in if has_prefix (String.◌∷◌ c s) p then true else rest

push_char : Char → List String → List String
push_char c [] = (String.◌∷◌ c String.[]) ∷ []
push_char c (p ∷ ps) = (String.◌∷◌ c p) ∷ ps

-- `strings.Split(s, sep)`, for a separator of one character, given by its code.
unfoldable pub split_on : ℕ → String → List String
unfolding push_char
split_on sep String.[] = String.[] ∷ []
split_on sep (String.◌∷◌ c s) =
    let parts = split_on sep s in
    if nat_beq (code c) sep then String.[] ∷ parts else push_char c parts

-- The text before the last such separator, if there is one.
unfoldable pub before_last : ℕ → String → Option String
before_last sep String.[] = none
before_last sep (String.◌∷◌ c s) = elim (before_last sep s) [
  | some t ↦ some (String.◌∷◌ c t)
  | none ↦ if nat_beq (code c) sep then some String.[] else none
]

-- `unicode.IsSpace`
is_space : ℕ → Bool
is_space n =
    (leb 9 n && leb n 13)
    || nat_beq n 32
    || nat_beq n 0x85
    || nat_beq n 0xA0
    || nat_beq n 0x1680
    || (leb 0x2000 n && leb n 0x200A)
    || nat_beq n 0x2028
    || nat_beq n 0x2029
    || nat_beq n 0x202F
    || nat_beq n 0x205F
    || nat_beq n 0x3000

trim_left : String → String
trim_left String.[] = String.[]
trim_left (String.◌∷◌ c s) =
    let rest = trim_left s in if is_space (code c) then rest else String.◌∷◌ c s

-- The text without the spaces at its end.
trim_right : String → String
trim_right String.[] = String.[]
trim_right (String.◌∷◌ c s) = elim (trim_right s) [
  | String.[] ↦ if is_space (code c) then String.[] else String.◌∷◌ c String.[]
  | String.◌∷◌ d t ↦ String.◌∷◌ c (String.◌∷◌ d t)
]

-- `strings.TrimSpace`
unfoldable pub trim_space : String → String
unfolding trim_left trim_right is_space
trim_space s = trim_right (trim_left s)

-- A text without the character of a code.
abbrev pub IsFreeOf : ℕ → String → Type 0
IsFreeOf sep String.[] = Unit
IsFreeOf sep (String.◌∷◌ c s) = (nat_beq (code c) sep ≡ false) × IsFreeOf sep s

before_last-free : (sep : ℕ) (s : String) → IsFreeOf sep s → before_last sep s ≡ none
unfolding before_last
before_last-free sep String.[] h = refl
before_last-free sep (String.◌∷◌ c s) h = rw (before_last-free sep s h.1) (rw (h.0) refl)

pub before_last-colon :
    (host port : String) → IsFreeOf b':' port → before_last b':' (host ++ (":" ++ port)) ≡ some host
unfolding before_last
before_last-colon String.[] port h = rw (nil-append (":" ++ port)) (
    rw (cons-append ":" "" port)
      (rw (nil-append port) (rw (before_last-free b':' port h, before_last) refl)))
before_last-colon (String.◌∷◌ c host) port h =
    rw (cons-append c host (":" ++ port)) (rw (before_last-colon host port h, before_last) refl)

pub append-IsFreeOf :
    (sep : ℕ) (s t : String) → IsFreeOf sep s → IsFreeOf sep t → IsFreeOf sep (s ++ t)
append-IsFreeOf sep String.[] t hs ht = rw (nil-append t) ht
append-IsFreeOf sep (String.◌∷◌ c s) t hs ht =
    rw (cons-append c s t) (hs.0, append-IsFreeOf sep s t hs.1 ht)

-- The parts of a text around its first separator.
pub split_on-append :
    (c : Char) (s t : String)
    → IsFreeOf (code c) s
    → split_on (code c) (s ++ (String.◌∷◌ c String.[] ++ t)) ≡ s ∷ split_on (code c) t
unfolding split_on push_char
split_on-append c String.[] t h = rw (nil-append (String.◌∷◌ c String.[] ++ t)) (
    rw (cons-append c String.[] t)
      (rw (nil-append t) (rw ((nat_beq_iff (code c) (code c)).1 refl, split_on) refl)))
split_on-append c (String.◌∷◌ d s) t h =
    rw (cons-append d s (String.◌∷◌ c String.[] ++ t))
      (rw (split_on-append c s t h.1, split_on) (rw (h.0) refl))

pub split_on-free : (sep : ℕ) (s : String) → IsFreeOf sep s → split_on sep s ≡ s ∷ []
unfolding split_on push_char
split_on-free sep String.[] h = refl
split_on-free sep (String.◌∷◌ c s) h = rw (h.0) (rw (split_on-free sep s h.1) refl)
