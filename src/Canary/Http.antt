-- ===== src/Canary/Http.antt =====
-- internal/agent/canary/http: the HTTP canary: its configuration, the redirects of a request, the
-- checks of the response, and the result. Fetching one URL, the calls of the callbacks of httptrace,
-- Duration.Hours, math.Floor, the names of cipher suites and the package regexp are parameters. A
-- configuration is what json.Unmarshal makes of it. A body is the first MiB of it, as text.
pub mod Redirects
pub mod Run
pub mod Timing
pub mod Verdict
use Prim.Native.String.{◌++◌}
use netvantage.Prelude.{
  ℕ, zero, suc, Bool, true, false, Option, none, some, List, [], ◌∷◌, ℤ, pos, String, ◌⊎◌, inl, inr,
  ◌&&◌, ◌||◌, ◌-ℤ◌, not, ltb_ℤ, snoc, ◌==◌, string_eq, int_eq, nat_eq, if◌then◌else◌,
}
use netvantage.Prelude.Text.{to_upper, contains}
use netvantage.Prelude.Decimal.{itoa}
use netvantage.Transport.{Payload}
use netvantage.Canary.{TestDefinition, Result}
use netvantage.Canary.Float.{Float}
use netvantage.Canary.Traceroute.{Raw, absent, undecodable, decoded}
use netvantage.Canary.Dns.{or_keep}

-- `validate_tls` is never read.
pub record Config : Type 0 where
  pub method : String
  pub headers : List (String × String)
  pub body : String
  pub expected_status : ℤ
  pub content_match : String
  pub content_regex : String
  pub follow_redirects : Bool
  pub max_redirects : ℤ
  pub tls_skip_verify : Bool
  pub validate_tls : Bool

-- A configuration's fields, `none` where the JSON leaves one out.
pub record Fields : Type 0 where
  pub method : Option String
  pub headers : Option (List (String × String))
  pub body : Option String
  pub expected_status : Option ℤ
  pub content_match : Option String
  pub content_regex : Option String
  pub follow_redirects : Option Bool
  pub max_redirects : Option ℤ
  pub tls_skip_verify : Option Bool
  pub validate_tls : Option Bool

abbrev pub is_method : String → Bool
is_method m =
    m == ""
    || m == "GET"
    || m == "POST"
    || m == "HEAD"
    || m == "PUT"
    || m == "DELETE"
    || m == "PATCH"
    || m == "OPTIONS"

-- regexp.Compile and Match: none for a text that is no expression.
module _ (compile : String → Option (String → Bool)) where
  abbrev compiles : String → Bool
  compiles regex = elim (compile regex) [ none ↦ false | some matches ↦ true ]

  -- Whether Validate accepts a configuration; {} and null count as absent.
  unfoldable pub validate : Raw Fields → Bool
  validate absent = true
  validate undecodable = false
  validate (decoded fields) =
      let status = or_keep fields.expected_status (pos 0) in
      let regex = or_keep fields.content_regex "" in
      is_method (to_upper (or_keep fields.method ""))
      && not (ltb_ℤ status (pos 0) || ltb_ℤ (pos 999) status)
      && (regex == "" || compiles regex)
      && not (ltb_ℤ (or_keep fields.max_redirects (pos 0)) (pos 0))

  -- The checks of the body.
  unfoldable pub content_matches : Config → String → Bool
  content_matches cfg body =
      let found = cfg.content_match == "" || contains cfg.content_match body in
      if not (cfg.content_regex == "") && found
      then (elim (compile cfg.content_regex) [ none ↦ false | some matches ↦ matches body ])
      else found

abbrev pub default_config : Config
default_config = record {
  method = "GET";
  headers = [];
  body = "";
  expected_status = pos 200;
  content_match = "";
  content_regex = "";
  follow_redirects = true;
  max_redirects = pos 10;
  tls_skip_verify = false;
  validate_tls = true;
}

abbrev or_if_empty : String → String → String
or_if_empty s d = if s == "" then d else s

abbrev or_if_zero : ℤ → ℤ → ℤ
or_if_zero n d = if n == pos 0 then d else n

-- Execute's configuration: the fields decoded onto the defaults, and defaults for what is empty then.
unfoldable pub configured : Raw Fields → Option Config
configured absent = some default_config
configured undecodable = none
configured (decoded fields) = some (record {
  method = or_if_empty (or_keep fields.method "GET") "GET";
  headers = or_keep fields.headers [];
  body = or_keep fields.body "";
  expected_status = or_if_zero (or_keep fields.expected_status (pos 200)) (pos 200);
  content_match = or_keep fields.content_match "";
  content_regex = or_keep fields.content_regex "";
  follow_redirects = or_keep fields.follow_redirects true;
  max_redirects = or_if_zero (or_keep fields.max_redirects (pos 10)) (pos 10);
  tls_skip_verify = or_keep fields.tls_skip_verify false;
  validate_tls = or_keep fields.validate_tls true;
})

-- A peer's certificate, with the nanoseconds until it expires.
pub record Certificate : Type 0 where
  pub subject : String
  pub issuer : String
  pub expires_in : ℤ

pub record TlsState : Type 0 where
  pub version : ℕ
  pub cipher_suite : ℕ
  pub peer_certificates : List Certificate

-- A response; `inl` in place of the body is the text of the error of reading it.
pub record Response : Type 0 where
  pub status_code : ℤ
  pub content_length : ℤ
  pub proto : String
  pub tls : Option TlsState
  pub body : String ⊎ String

-- What comes of fetching one URL: an error, a response, or a redirect to a URL.
pub data Fetched : Type 0 where
  fetch_failed : String → Fetched
  answered : Response → Fetched
  redirected : String → Response → Fetched

-- The outcome of client.Do, the count of redirects and their chain.
pub record Outcome : Type 0 where
  pub answer : String ⊎ Response
  pub redirect_count : ℕ
  pub redirect_chain : List String

-- What is done with a fetched URL, CheckRedirect's decision on a redirect included (net/http puts the
-- method and the URL before the text of its error); `go` is the rest of
-- the exchange from another URL.
unfoldable pub settle :
    Config → ℕ → List String → (String → Option Outcome) → Fetched → Option Outcome
settle cfg redirects chain go (fetch_failed e) =
    some (record { answer = inl e; redirect_count = redirects; redirect_chain = chain })
settle cfg redirects chain go (answered resp) =
    some (record { answer = inr resp; redirect_count = redirects; redirect_chain = chain })
settle cfg redirects chain go (redirected next resp) =
    let ends : String ⊎ Response → Option Outcome = λ answer. some (record {
      answer = answer;
      redirect_count = suc redirects;
      redirect_chain = snoc chain next;
    }) in
    if not cfg.follow_redirects
    then ends (inr resp)
    else if ltb_ℤ cfg.max_redirects (pos (suc redirects))
    then ends (inl ("max redirects (" ++ (itoa cfg.max_redirects ++ ") exceeded")))
    else go next

module _ (fetch : String → Fetched) where
  -- client.Do from a URL, with what CheckRedirect has counted. None means that the fuel ran out.
  unfoldable pub client_do : ℕ → Config → String → ℕ → List String → Option Outcome
  client_do zero cfg url redirects chain = none
  client_do (suc fuel) cfg url redirects chain =
      settle cfg redirects chain (λ next. client_do fuel cfg next (suc redirects) (snoc chain next))
        (fetch url)
