-- ===== src/Agent/Buffer.antt =====
-- internal/agent/buffer/buffer.go: the queue that keeps results while the transport is down. `int64`
-- additions are written with their wrap-around. A handler passed to Drain is a closure over the state
-- `S` of its caller; it returns whether it took the message.
pub mod Push
pub mod Drain
use netvantage.Prelude.{
  ℕ, ◌+◌, Bool, true, false, List, [], ◌∷◌, ℤ, pos, ◌+ℤ◌, wrap64, ltb_ℤ, String, length, snoc,
  if◌then◌else◌,
}
use netvantage.Transport.{Payload}

pub record BufferedMessage : Type 0 where
  pub topic : String
  pub payload : Payload

pub record MemoryBuffer : Type 0 where
  pub messages : List BufferedMessage
  pub max_size : ℤ
  pub cur_size : ℤ

abbrev pub new_memory_buffer : ℤ → MemoryBuffer
new_memory_buffer max_size_bytes = record {
  messages = [];
  max_size = max_size_bytes;
  cur_size = pos 0;
}

-- `int64(len(msg))`
abbrev pub msg_size : Payload → ℤ
msg_size msg = pos (length msg)

-- The result says whether the message was stored; if not, the error is ErrBufferFull.
unfoldable pub push : MemoryBuffer → String → Payload → MemoryBuffer × Bool
push b topic msg =
    let sum = wrap64 (b.cur_size +ℤ msg_size msg) in
    if ltb_ℤ b.max_size sum then (b, false) else (
      record b {
        messages = snoc b.messages (record { topic = topic; payload = msg });
        cur_size = sum;
      },
      true,
    )

abbrev pub len : MemoryBuffer → ℕ
len b = length b.messages

module _ {ℓ} {S : Type ℓ} (handler : String → Payload → S → S × Bool) where
  -- The loop of Drain, over the messages left, the ones kept so far and their size.
  unfoldable pub drain_loop :
      List BufferedMessage → List BufferedMessage → ℤ → S → List BufferedMessage × ℤ × S
  drain_loop [] remaining size s = (remaining, size, s)
  drain_loop (m ∷ ms) remaining size s =
      let (s', taken) = handler m.topic m.payload s in
      elim taken [
        | true ↦ drain_loop ms remaining size s'
        | false ↦ drain_loop ms (snoc remaining m) (wrap64 (size +ℤ msg_size m.payload)) s'
      ]

  unfoldable pub drain : MemoryBuffer → S → MemoryBuffer × S
  drain b s =
      let (remaining, size, s') = drain_loop b.messages [] (pos 0) s in
      (record b { messages = remaining; cur_size = size }, s')
