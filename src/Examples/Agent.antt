-- ===== src/Examples/Agent.antt =====
-- A buffer of four bytes and the messages it keeps.
use netvantage.Prelude.{◌≡◌, ◌↔◌, refl, inr, Bool, true, false, not, [], ◌∷◌, pos, String, arith}
use netvantage.Transport.{Payload}
use netvantage.Agent.Buffer.{MemoryBuffer, push, drain}
use netvantage.Agent.Buffer.Push.{IsValid, stored, Fits, push_lem}
use netvantage.Agent.Buffer.Drain.{refused_of, final_of, drain_lem}

abbrev one_message : MemoryBuffer
one_message = record {
  messages = record { topic = "t"; payload = 1 ∷ 2 ∷ 3 ∷ [] } ∷ [];
  max_size = pos 4;
  cur_size = pos 3;
}

one_message-IsValid : IsValid one_message
one_message-IsValid = record { accounted = refl; within = inr (omega arith) }

push_lem_example :
    ((push one_message "t" (4 ∷ []) ≡ (stored one_message "t" (4 ∷ []), true))
      ↔ Fits one_message (4 ∷ []))
    × ((push one_message "t" (4 ∷ []) ≡ (one_message, false)) ↔ (¬ Fits one_message (4 ∷ [])))
    × IsValid (push one_message "t" (4 ∷ [])).0
push_lem_example = push_lem one_message "t" (4 ∷ []) one_message-IsValid (omega arith)

-- A handler that takes every second message.
abbrev every_second : String → Payload → Bool → Bool × Bool
every_second topic msg b = (not b, b)

drain_lem_example :
    ((drain every_second one_message false).0.messages
      ≡ refused_of every_second one_message.messages false)
    × ((drain every_second one_message false).1 ≡ final_of every_second one_message.messages false)
    × IsValid (drain every_second one_message false).0
drain_lem_example = drain_lem every_second one_message false one_message-IsValid (omega arith)
