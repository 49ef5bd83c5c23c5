-- ===== src/Server/Response.antt =====
-- internal/server/api/handler/json.go and internal/domain/errors.go: the errors of the domain, and the
-- status with which a handler answers one.
use Prim.Native.String.{◌++◌}
use netvantage.Prelude.{ℕ, String}

-- The sentinel that an error wraps, `other` for none of them.
pub data ErrorKind : Type 0 where
  not_found : ErrorKind
  already_exists : ErrorKind
  invalid_input : ErrorKind
  unauthorized : ErrorKind
  forbidden : ErrorKind
  other : ErrorKind

pub record Error : Type 0 where
  pub kind : ErrorKind
  pub message : String

-- An answer: its status, and its body before it is encoded: an error's text, a value, a confirmation
-- (the `status` of a map), or none.
pub data Body {ℓ} (A : Type ℓ) : Type ℓ where
  error_text : String → Body A
  value : A → Body A
  confirmation : String → Body A
  empty : Body A

pub record Response {ℓ} (A : Type ℓ) : Type ℓ where
  pub status : ℕ
  pub body : Body A

abbrev pub error_status : ErrorKind → ℕ
error_status not_found = 404
error_status already_exists = 409
error_status invalid_input = 400
error_status unauthorized = 401
error_status forbidden = 403
error_status other = 500

abbrev pub error_response {ℓ} : {A : Type ℓ} → Error → Response A
error_response err = record { status = error_status err.kind; body = error_text err.message }

abbrev pub write_json {ℓ} : {A : Type ℓ} → ℕ → A → Response A
write_json status a = record { status = status; body = value a }

-- fmt.Errorf("%w: ...", domain.ErrInvalidInput)
abbrev pub invalid : String → Error
invalid message = record { kind = invalid_input; message = "invalid input: " ++ message }
