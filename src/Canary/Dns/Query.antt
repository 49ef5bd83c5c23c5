-- ===== src/Canary/Dns/Query.antt =====
-- internal/agent/canary/dns/dns.go: the queries of one resolver, their errors, and the content check. The
-- lookups of the package net are a parameter.
use Prim.Native.String.{◌++◌}
use netvantage.Prelude.{
  ℕ, Bool, true, false, Option, none, some, List, [], ◌∷◌, pos, String, ◌⊎◌, inl, inr, ◌==◌,
  string_eq, if◌then◌else◌,
}
use netvantage.Prelude.Text.{to_upper, contains}
use netvantage.Prelude.Dict.{lookup, insert}
use netvantage.Prelude.Decimal.{itoa}
use netvantage.Canary.Dns.{Config}

-- The lookups, each from an address and a domain. An IP address comes with whether it is an IPv4 one.
pub record Net : Type 0 where
  pub lookup_ip : Option String → String → String ⊎ List (String × Bool)
  pub lookup_cname : Option String → String → String ⊎ String
  pub lookup_mx : Option String → String → String ⊎ List (ℕ × String)
  pub lookup_ns : Option String → String → String ⊎ List String
  pub lookup_txt : Option String → String → String ⊎ List String
  pub lookup_srv : Option String → String → String ⊎ List (ℕ × ℕ × ℕ × String)

-- The address that the dialler of a resolver uses.
unfoldable pub dial_address : String → Option String
dial_address resolver =
    if resolver == ""
    then none
    else if contains ":" resolver
    then some resolver
    else some (resolver ++ ":53")

-- The loop over the addresses of a family.
unfoldable pub of_family : Bool → List (String × Bool) → List String
of_family v4 [] = []
of_family v4 ((ip, is_v4) ∷ ips) =
    let rest = of_family v4 ips in
    if v4 then (if is_v4 then ip ∷ rest else rest) else (if is_v4 then rest else ip ∷ rest)

unfoldable pub mx_values : List (ℕ × String) → List String
mx_values [] = []
mx_values ((pref, host) ∷ mxs) = (itoa (pos pref) ++ (" " ++ host)) ∷ mx_values mxs

unfoldable pub srv_values : List (ℕ × ℕ × ℕ × String) → List String
srv_values [] = []
srv_values ((priority, weight, port, target) ∷ addrs) =
    (itoa (pos priority)
      ++ (" " ++ (itoa (pos weight) ++ (" " ++ (itoa (pos port) ++ (" " ++ target))))))
    ∷ srv_values addrs

abbrev pub map_right {ℓ κ ι} : {A : Type ℓ} {B : Type κ} {C : Type ι} → (B → C) → A ⊎ B → A ⊎ C
map_right f (inl a) = inl a
map_right f (inr b) = inr (f b)

-- The switch on the record type: the error or the values.
unfoldable pub query : Net → Option String → String → String → String ⊎ List String
query net address domain t =
    if t == "A"
    then map_right (of_family true) (net.lookup_ip address domain)
    else if t == "AAAA"
    then map_right (of_family false) (net.lookup_ip address domain)
    else if t == "CNAME"
    then map_right (λ cname. cname ∷ []) (net.lookup_cname address domain)
    else if t == "MX"
    then map_right mx_values (net.lookup_mx address domain)
    else if t == "NS"
    then net.lookup_ns address domain
    else if t == "TXT"
    then net.lookup_txt address domain
    else if t == "SRV"
    then map_right srv_values (net.lookup_srv address domain)
    else inl ("unsupported record type: " ++ t)

unfoldable pub classify_dns_error : String → String
classify_dns_error e =
    if contains "no such host" e
    then "NXDOMAIN"
    else if contains "server misbehaving" e
    then "SERVFAIL"
    else if contains "i/o timeout" e
    then "TIMEOUT"
    else if contains "connection refused" e
    then "REFUSED"
    else "ERROR"

-- The set of the resolved values, and the index into it.
unfoldable pub resolved_set : List String → List (String × Bool)
resolved_set [] = []
resolved_set (v ∷ vs) = insert v true (resolved_set vs)

abbrev pub is_set : Option Bool → Bool
is_set none = false
is_set (some b) = b

unfoldable pub all_set : List (String × Bool) → List String → Bool
all_set set [] = true
all_set set (e ∷ es) = let rest = all_set set es in if is_set (lookup e set) then rest else false

unfoldable pub validate_content : List String → List String → Bool
validate_content resolved expected = all_set (resolved_set resolved) expected

-- The record type that is queried.
unfoldable pub queried_type : Config → String
queried_type cfg = let t = to_upper cfg.record_type in if t == "" then "A" else t
