-- ===== src/Rpc/Collector/Bounds.antt =====
-- The caps on a reply hold however it comes, and no feed runs out of fuel.
use smb1client_rs.Base.{
  ℕ, zero, suc, ◌+◌, ◌≤◌, ◌<◌, ◌≡◌, refl, false, not, ◌==◌, ltb, Option, none, some, List, [], ◌++◌,
  length, length-append, get_from, arith, Result, ok, err, ok_or, map_err, ◌>>=◌, Bool-cases, inl,
  inr,
}
use smb1client_rs.Rpc.Pdu
use smb1client_rs.Rpc.Pdu.{
  PduError, PduStream, PduHeader, push, parse, header_len, ptype_fault, pdu_cap, stub_cap,
  truncated,
}
use smb1client_rs.Rpc.Pdu.Cut.{waits, fails, cuts, next-Cut}
use smb1client_rs.Rpc.Collector.{
  Collector, Halt, failed, out_of_fuel, opened, prologue, take_payload, take_unit, take_header,
  accept, drain, feed, new,
}
use smb1client_rs.Rpc.Collector.Chunks.{over, over_all, accept-over}

-- A collector within the caps, of a reply that is opened before it has bytes or is complete.
pub record IsCapped (c : Collector) : Type 0 where
  pub units : c.pdus ≤ pdu_cap
  pub bytes : length c.payload ≤ stub_cap
  pub unopened : c.ptype ≡ none → (c.payload ≡ []) × (c.pdus ≡ 0) × (c.complete ≡ false)

abbrev pub Capped : Result PduError Collector → Type 0
Capped (ok c) = IsCapped c
Capped (err e) = Unit {0}

-- What a feed leaves: a collector within the caps that no whole unit waits in, or an error of the source.
abbrev pub Fed : Result Halt Collector → Type 0
Fed (ok c) = IsCapped c × (Pdu.next c.stream ≡ ok (none, c.stream))
Fed (err (failed e)) = Unit {0}
Fed (err out_of_fuel) = ⊥

pub new-IsCapped : (call_id : ℕ) → IsCapped (new call_id)
new-IsCapped call_id = record {
  units = omega arith;
  bytes = omega arith;
  unopened = λ e. (refl, refl, refl);
}

take_unit-Capped :
    (c : Collector) (fragment : List ℕ) (h : PduHeader) (ptype : ℕ)
    → IsCapped c
    → Capped (take_unit c fragment h ptype)
take_unit-Capped c fragment h ptype k = elim (Bool-cases (ltb pdu_cap (c.pdus + 1))) [
  | inl many ↦ rw (take_unit, many) tt
  | inr few ↦ rw (take_unit, few) (taken few (get_from (header_len + prologue h) fragment))
]
  where
    taken :
        ltb pdu_cap (c.pdus + 1) ≡ false
        → (o : Option (List ℕ))
        → Capped (
            ok_or o (truncated (header_len + prologue h) (length fragment))
            >>= take_payload (record c { ptype = some ptype; pdus = c.pdus + 1 }) h)
    taken few none = tt
    taken few (some payload) =
        elim (Bool-cases (ltb stub_cap (length c.payload + length payload))) [
          | inl large ↦ rw (take_payload, large) tt
          | inr small ↦
              rw (take_payload, small)
                (record {
                  units = ground (arith, few);
                  bytes = ground (arith, small, length-append c.payload payload);
                  unopened = λ (e : some ptype ≡ none). cc;
                })
        ]

pub accept-Capped : (c : Collector) (fragment : List ℕ) → IsCapped c → Capped (accept c fragment)
unfolding accept
accept-Capped c fragment k = elim (Bool-cases c.complete) [
  | inl done ↦ simp (accept, done) k
  | inr going ↦ rw (accept, going) (parsed (parse fragment))
]
  where
    by_type : (h : PduHeader) (o : Result PduError ℕ) → Capped (o >>= take_unit c fragment h)
    by_type h (err e) = tt
    by_type h (ok ptype) = take_unit-Capped c fragment h ptype k

    parsed : (o : Result PduError PduHeader) → Capped (o >>= take_header c fragment)
    parsed (err e) = tt
    parsed (ok h) = elim (Bool-cases (not (h.call_id == c.call_id))) [
      | inl other ↦ rw (take_header, other) tt
      | inr same ↦ elim (Bool-cases (h.ptype == ptype_fault)) [
        | inl fault ↦ rw (take_header, same, fault) tt
        | inr calm ↦ rw (take_header, same, calm) (by_type h (opened c.ptype h))
      ]
    ]

and_then-Fed :
    (s : PduStream) (j : Collector → Result Halt Collector) (r : Result PduError Collector)
    → Capped r
    → ((c : Collector) → IsCapped (over s c) → Fed (j (over s c)))
    → Fed (map_err failed (over_all s r) >>= j)
and_then-Fed s j (err e) k h = tt
and_then-Fed s j (ok c) k h =
    h c (record { units = k.units; bytes = k.bytes; unopened = k.unopened })

drain-Fed :
    (fuel : ℕ) (c : Collector) → IsCapped c → length c.stream.pending < fuel → Fed (drain fuel c)
unfolding drain
drain-Fed zero c k h = absurd (omega (arith, h))
drain-Fed (suc fuel) c k h = elim (next-Cut c.stream) [
  | waits e ↦ rw e (k, e)
  | fails fault e more ↦ rw e tt
  | cuts fragment rest e shorter more ↦
      let s : PduStream = record { pending = rest } in
      rw (e, accept-over s c fragment)
        (and_then-Fed s (drain fuel) (accept c fragment) (accept-Capped c fragment k)
          (λ c' k'. drain-Fed fuel (over s c') k' (omega (arith, shorter, h))))
]

-- Of a collector within the caps, whatever a pipe delivers, a feed ends: with an error of the source,
-- or within the caps, 1,972 units and 8 MiB of payload, with no whole unit left to take.
pub feed-Fed : (c : Collector) (bytes : List ℕ) → IsCapped c → Fed (feed c bytes)
unfolding feed
feed-Fed c bytes k =
    drain-Fed (suc (length (c.stream.pending ++ bytes))) (over (push c.stream bytes) c)
      (record { units = k.units; bytes = k.bytes; unopened = k.unopened }) (omega arith)
