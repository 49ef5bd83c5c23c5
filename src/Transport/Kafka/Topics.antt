-- ===== src/Transport/Kafka/Topics.antt =====
-- The topics of internal/transport/kafka/kafka.go.
use Prim.Native.Char.{Char, code}
use text.Mathlib.TextEquality.{Char-path}
use netvantage.Prelude.{
  ◌≡◌, refl, sym, ap, ap₂, inl, inr, false, String, nat_beq, nat_beq_iff, arith, Bool-cases,
}
use netvantage.Prelude.Text.{IsFreeOf}
use netvantage.Transport.Kafka.{to_hyphen, full_topic}

to_hyphen-injective :
    (c d : Char)
    → nat_beq (code c) b'-' ≡ false
    → nat_beq (code d) b'-' ≡ false
    → to_hyphen c ≡ to_hyphen d
    → c ≡ d
unfolding to_hyphen
to_hyphen-injective c d hc hd e = elim (Bool-cases (nat_beq (code c) b'.')) [
  | inl dot ↦ elim (Bool-cases (nat_beq (code d) b'.')) [
    | inl dot' ↦
        Char-path c d (ground (arith, nat_beq_iff (code c) b'.', nat_beq_iff (code d) b'.'))
    | inr other ↦
        let same : code d ≡ b'-' = ap code (sym (rw dot at (rw other at e))) in
        ground (arith, nat_beq_iff (code d) b'-')
  ]
  | inr other ↦ elim (Bool-cases (nat_beq (code d) b'.')) [
    | inl dot ↦
        let same : code c ≡ b'-' = ap code (rw dot at (rw other at e)) in
        ground (arith, nat_beq_iff (code c) b'-')
    | inr other' ↦ rw other' at (rw other at e)
  ]
]

-- Two topics without hyphens have one Kafka topic only if they are the same.
pub full_topic-injective :
    (topic other : String)
    → IsFreeOf b'-' topic
    → IsFreeOf b'-' other
    → full_topic topic ≡ full_topic other
    → topic ≡ other
unfolding full_topic
full_topic-injective String.[] String.[] h h' e = refl
full_topic-injective String.[] (String.◌∷◌ d s) h h' e = cc
full_topic-injective (String.◌∷◌ c s) String.[] h h' e = cc
full_topic-injective (String.◌∷◌ c s) (String.◌∷◌ d t) h h' e =
    ap₂ String.◌∷◌ (to_hyphen-injective c d h.0 h'.0 (cc e))
      (full_topic-injective s t h.1 h'.1 (cc e))
