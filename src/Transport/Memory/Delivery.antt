-- ===== src/Transport/Memory/Delivery.antt =====
-- Who receives what is published on the in-memory transport.
use netvantage.Prelude.{
  ◌≡◌, refl, ap, ◌∙◌, inl, inr, false, Option, none, some, List, [], ◌∷◌, ◌++◌, String, Bool-cases,
  Option-cases, eq_iff, string_eq, ◌==◌, append_assoc, append-nil, if◌then◌else◌, snoc,
}
use netvantage.Prelude.Dict.{lookup, lookup-insert}
use netvantage.Transport.Types.{Payload, TransportError}
use netvantage.Transport.Memory.{
  Transport, new, handlers_of, add_handler, subscribe, deliver, publish,
}

module _ {ℓ} {H : Type ℓ} where
  -- What a client does before publishing.
  pub subscribe_all : Transport H → List (String × H) → Transport H
  subscribe_all t [] = t
  subscribe_all t ((topic, h) ∷ rest) = subscribe_all (subscribe t topic h).0 rest

  -- The handlers that a list of subscriptions names for a topic, in order.
  abbrev pub subscribed : String → List (String × H) → List H
  subscribed topic [] = []
  subscribed topic ((t, h) ∷ rest) =
      if t == topic then h ∷ subscribed topic rest else subscribed topic rest

  handlers_of-add_handler :
      (t : Transport H) (topic other : String) (h : H)
      → handlers_of (add_handler t topic h) other
        ≡ (if topic == other then snoc (handlers_of t other) h else handlers_of t other)
  unfolding add_handler
  handlers_of-add_handler t topic other h = elim (Bool-cases (string_eq.beq topic other)) [
    | inl here ↦ let same = (eq_iff topic other).0 here in rw lookup-insert (rw here (rw same))
    | inr elsewhere ↦ rw lookup-insert (rw elsewhere)
  ]

  subscribe_open :
      (t : Transport H) (topic : String) (h : H)
      → t.closed ≡ false
      → subscribe t topic h ≡ (add_handler t topic h, none)
  unfolding subscribe
  subscribe_open t topic h e =
      ap (λ b. if b then (t, some TransportError.closed) else (add_handler t topic h, none)) e

  handlers_of-subscribe_all :
      (t : Transport H) (subs : List (String × H)) (topic : String)
      → t.closed ≡ false
      → (handlers_of (subscribe_all t subs) topic ≡ handlers_of t topic ++ subscribed topic subs)
        × ((subscribe_all t subs).closed ≡ false)
  unfolding subscribe_all
  handlers_of-subscribe_all t [] topic e = (rw append-nil, e)
  handlers_of-subscribe_all t ((other, h) ∷ subs) topic e =
      rw (subscribe_open t other h e, subscribe_all)
        (let (ih, still) =
            handlers_of-subscribe_all (add_handler t other h) subs topic
              (unfold add_handler in e) in
          (
            rw (ih, handlers_of-add_handler t other topic h)
                (elim (Bool-cases (string_eq.beq other topic)) [
                  | inl here ↦
                      rw here (append_assoc (handlers_of t topic) (h ∷ []) (subscribed topic subs))
                  | inr elsewhere ↦ rw elsewhere
                ]),
            still,
          ))

module _ {ℓ κ} {H : Type ℓ} {S : Type κ} (call : H → Payload → S → S × Option TransportError) where
  publish_open :
      (t : Transport H) (topic : String) (msg : Payload) (s : S)
      → t.closed ≡ false
      → publish call t topic msg s ≡ deliver call (handlers_of t topic) msg s
  unfolding publish deliver
  publish_open t topic msg s e = elim (Option-cases (lookup topic t.handlers)) [
    | inl nobody ↦ rw (nobody, publish) (rw e)
    | inr (hs, known) ↦ rw (known, publish) (rw e)
  ]

  -- After any subscriptions, a message goes to exactly the handlers that were subscribed to its topic,
  -- in the order in which they subscribed, up to the first that fails.
  pub publish-subscribe_all :
      (subs : List (String × H)) (topic : String) (msg : Payload) (s : S)
      → publish call (subscribe_all new subs) topic msg s
        ≡ deliver call (subscribed topic subs) msg s
  unfolding lookup
  publish-subscribe_all subs topic msg s =
      let (handlers, still) = handlers_of-subscribe_all new subs topic refl in
      publish_open (subscribe_all new subs) topic msg s still
      ∙ ap (λ hs. deliver call hs msg s) handlers
