-- ===== src/Transport/Types.antt =====
-- internal/transport/transport.go: what every transport shares. A message is its bytes, and a byte is
-- any number, since the program never computes with one.
use netvantage.Prelude.{ℕ, List, String}

abbrev pub Payload : Type 0
Payload = List ℕ

-- The error of a publish or a subscribe: ErrClosed, or what the backend or a handler returned.
pub data TransportError : Type 0 where
  closed : TransportError
  failed : String → TransportError
