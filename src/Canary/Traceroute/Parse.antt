-- ===== src/Canary/Traceroute/Parse.antt =====
-- internal/agent/canary/traceroute/traceroute.go: the hops that the reports of mtr and scamper give.
-- Whether a text is an IP, and what a host's lookup gives, are parameters.
use Prim.Native.String.{◌++◌}
use netvantage.Prelude.{
  ℕ, suc, Bool, Option, some, List, [], ◌∷◌, ℤ, pos, ◌-ℤ◌, wrap64, ltb_ℤ, String, ◌⊎◌, inl, inr,
  length, ◌==◌, string_eq, if◌then◌else◌,
}
use netvantage.Canary.Float.{Float}
use netvantage.Canary.Traceroute.{Hop}

pub record MtrHop (F : Type 0) : Type 0 where
  pub count : ℤ
  pub host : String
  pub loss : F
  pub sent : ℤ
  pub last : F
  pub avg : F
  pub best : F
  pub worst : F
  pub st_dev : F

pub record ScamperProbe (F : Type 0) : Type 0 where
  pub rtt : F
  pub reply : ℤ

pub record ScamperHop (F : Type 0) : Type 0 where
  pub addr : String
  pub name : String
  pub probe_ttl : ℤ
  pub probes : List (ScamperProbe F)

-- A line of scamper's output: empty or no JSON object, an object of another type, a trace that does
-- not decode, or the hops of a trace.
pub data Line (F : Type 0) : Type 0 where
  skipped : Line F
  other_object : Line F
  bad_trace : String → Line F
  trace : List (ScamperHop F) → Line F

-- The name, and the address for it, of a host in mtr's report.
pub host_of : (String → Bool) → (String → Option (List String)) → String → String × String
host_of is_ip lookup_host host =
    if host == "???"
    then ("", "")
    else if is_ip host
    then ("", host)
    else elim (lookup_host host) [ some (ip ∷ ips) ↦ (host, ip) | _ ↦ (host, "") ]

module _ {F : Type 0} (float : Float F) where
  abbrev pub nought : F
  nought = float.of_int (pos 0)

  -- The packets received, from those sent and the share lost.
  pub received_of : ℤ → F → ℤ
  received_of sent loss =
      let lost =
        float.to_int
          (float.add (float.mul (float.of_int sent) loss) (float.of_ratio (pos 1) (pos 2))) in
      if ltb_ℤ (pos 0) sent then wrap64 (sent -ℤ lost) else pos 0

  unfoldable pub mtr_hop : (String → Bool) → (String → Option (List String)) → ℕ → MtrHop F → Hop F
  mtr_hop is_ip lookup_host i h =
      let (hostname, ip) = host_of is_ip lookup_host h.host in
      let loss = float.div h.loss (float.of_int (pos 100)) in
      record {
        hop_number = pos (suc i);
        ip = ip;
        hostname = hostname;
        asn = pos 0;
        as_name = "";
        rtt_min = h.best;
        rtt_avg = h.avg;
        rtt_max = h.worst;
        rtt_std_dev = h.st_dev;
        packet_loss = loss;
        sent = h.sent;
        received = received_of h.sent loss;
      }

  -- The loop of parseMTRJSON from the index `i` on.
  unfoldable pub parse_mtr :
      (String → Bool) → (String → Option (List String)) → ℕ → List (MtrHop F) → List (Hop F)
  parse_mtr is_ip lookup_host i [] = []
  parse_mtr is_ip lookup_host i (h ∷ hs) =
      mtr_hop is_ip lookup_host i h ∷ parse_mtr is_ip lookup_host (suc i) hs

  -- The sum, the least, the greatest and the number of the times of the probes that were answered.
  pub record Tally : Type 0 where
    pub sum : F
    pub least : F
    pub greatest : F
    pub received : ℕ

  pub tally_loop : List (ScamperProbe F) → Tally → Tally
  tally_loop [] t = t
  tally_loop (p ∷ ps) t =
      let counted : Tally = record {
        sum = float.add t.sum p.rtt;
        least = if float.lt p.rtt t.least then p.rtt else t.least;
        greatest = if float.lt t.greatest p.rtt then p.rtt else t.greatest;
        received = suc t.received;
      } in
      tally_loop ps (if ltb_ℤ (pos 0) p.reply then counted else t)

  -- The loop starts with the first probe's time as the least one, be it answered or not.
  pub tally : ScamperProbe F → List (ScamperProbe F) → Tally
  tally p ps =
      tally_loop (p ∷ ps) (record { sum = nought; least = p.rtt; greatest = nought; received = 0 })

  -- The statistics of the probes, if there are any.
  unfoldable pub add_probes : List (ScamperProbe F) → Hop F → Hop F
  add_probes [] hop = hop
  add_probes (p ∷ ps) hop =
      let t = tally p ps in
      let n = float.of_int (pos t.received) in
      let some_received = ltb_ℤ (pos 0) (pos t.received) in
      record hop {
        sent = pos (length (p ∷ ps));
        received = pos t.received;
        rtt_min = if some_received then t.least else hop.rtt_min;
        rtt_max = if some_received then t.greatest else hop.rtt_max;
        rtt_avg = if some_received then float.div t.sum n else hop.rtt_avg;
        packet_loss =
            float.sub (float.of_int (pos 1)) (float.div n (float.of_int (pos (length (p ∷ ps)))));
      }

  unfoldable pub scamper_hop : ScamperHop F → Hop F
  scamper_hop h = add_probes h.probes (record {
    hop_number = h.probe_ttl;
    ip = h.addr;
    hostname = h.name;
    asn = pos 0;
    as_name = "";
    rtt_min = nought;
    rtt_avg = nought;
    rtt_max = nought;
    rtt_std_dev = nought;
    packet_loss = nought;
    sent = pos 0;
    received = pos 0;
  })

  unfoldable pub scamper_hops : List (ScamperHop F) → List (Hop F)
  scamper_hops [] = []
  scamper_hops (h ∷ hs) = scamper_hop h ∷ scamper_hops hs

  -- The first object of type "trace" decides.
  unfoldable pub parse_scamper : List (Line F) → String ⊎ List (Hop F)
  parse_scamper [] = inl "no trace object found in scamper output"
  parse_scamper (skipped ∷ ls) = parse_scamper ls
  parse_scamper (other_object ∷ ls) = parse_scamper ls
  parse_scamper (bad_trace text ∷ ls) = inl ("parse scamper trace: " ++ text)
  parse_scamper (trace hops ∷ ls) = inr (scamper_hops hops)
