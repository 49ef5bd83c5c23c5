-- ===== src/Agent/Buffer/Push.antt =====
-- The size accounting of the buffer: Push keeps it exact and under the limit.
use netvantage.Prelude.{
  ℕ, ◌+◌, ◌^◌, ◌<◌, ◌≡◌, ◌↔◌, refl, ap, sym, ◌⊎◌, inl, inr, true, false, List, [], ◌∷◌, ℤ, pos,
  ◌≤ℤ◌, ◌+ℤ◌, wrap64, wrap64-pos, +ℤ-pos, ltb_ℤ-false_of_le, ltb_ℤ-true_of_not_le, String, length,
  snoc, arith,
}
use native.Mathlib.Decide.{dec_le}
use netvantage.Transport.{Payload}
use netvantage.Agent.Buffer.{BufferedMessage, MemoryBuffer, new_memory_buffer, msg_size, push}

-- The bytes that the messages hold.
abbrev pub total : List BufferedMessage → ℕ
total [] = 0
total (m ∷ ms) = length m.payload + total ms

pub total-snoc :
    (ms : List BufferedMessage) (m : BufferedMessage)
    → total (snoc ms m) ≡ total ms + length m.payload
total-snoc [] m = omega arith
total-snoc (x ∷ ms) m = omega (arith, total-snoc ms m)

-- The recorded size is the real one, and no more than the limit unless nothing is stored.
pub record IsValid (b : MemoryBuffer) : Type 0 where
  pub accounted : b.cur_size ≡ pos (total b.messages)
  pub within : (b.messages ≡ []) ⊎ (pos (total b.messages) ≤ℤ b.max_size)

pub new-IsValid : (n : ℤ) → IsValid (new_memory_buffer n)
new-IsValid n = record { accounted = refl; within = inl refl }

-- The sum of sizes is exact while it fits an int64.
sum_exact :
    (b : MemoryBuffer) (msg : Payload)
    → IsValid b
    → total b.messages + length msg < 2 ^ 63
    → wrap64 (b.cur_size +ℤ msg_size msg) ≡ pos (total b.messages + length msg)
sum_exact b msg v h = rw (v.accounted, +ℤ-pos) (wrap64-pos (total b.messages + length msg) h)

abbrev pub stored : MemoryBuffer → String → Payload → MemoryBuffer
stored b topic msg = record b {
  messages = snoc b.messages (record { topic = topic; payload = msg });
  cur_size = pos (total b.messages + length msg);
}

abbrev pub Fits : MemoryBuffer → Payload → Type 0
Fits b msg = pos (total b.messages + length msg) ≤ℤ b.max_size

push_stores :
    (b : MemoryBuffer) (topic : String) (msg : Payload)
    → IsValid b
    → total b.messages + length msg < 2 ^ 63
    → Fits b msg
    → push b topic msg ≡ (stored b topic msg, true)
unfolding push
push_stores b topic msg v h fits =
    simp
      (sum_exact b msg v h, ltb_ℤ-false_of_le (pos (total b.messages + length msg)) b.max_size fits)

push_refuses :
    (b : MemoryBuffer) (topic : String) (msg : Payload)
    → IsValid b
    → total b.messages + length msg < 2 ^ 63
    → ¬ Fits b msg
    → push b topic msg ≡ (b, false)
unfolding push
push_refuses b topic msg v h full = simp (
  sum_exact b msg v h,
  ltb_ℤ-true_of_not_le (pos (total b.messages + length msg)) b.max_size full,
)

Fits-cases : (b : MemoryBuffer) (msg : Payload) → Fits b msg ⊎ (¬ Fits b msg)
Fits-cases b msg = elim (dec_le _ _) [ yes fits ↦ inl fits | no full ↦ inr full ]

stored-IsValid :
    (b : MemoryBuffer) (topic : String) (msg : Payload) → Fits b msg → IsValid (stored b topic msg)
stored-IsValid b topic msg fits =
    let sum = total-snoc b.messages (record { topic = topic; payload = msg }) in
    record { accounted = ap pos (sym sum); within = inr (rw sum fits) }

-- Push stores the message behind the others exactly if all the bytes together stay within the limit,
-- refuses it and changes nothing exactly if they do not, and keeps the size accounting exact. (The
-- sizes of the messages fit an int64 together.)
pub push_lem :
    (b : MemoryBuffer) (topic : String) (msg : Payload)
    → IsValid b
    → total b.messages + length msg < 2 ^ 63
    → ((push b topic msg ≡ (stored b topic msg, true)) ↔ Fits b msg)
      × ((push b topic msg ≡ (b, false)) ↔ (¬ Fits b msg))
      × IsValid (push b topic msg).0
push_lem b topic msg v h = elim (Fits-cases b msg) [
  | inl fits ↦
      let is = push_stores b topic msg v h fits in
      rw is
        ((λ e. fits, λ f. refl), (λ e. cc, λ f. absurd (f fits)), stored-IsValid b topic msg fits)
  | inr full ↦
      let is = push_refuses b topic msg v h full in
      rw is ((λ e. cc, λ f. absurd (full f)), (λ e. full, λ f. refl), v)
]
