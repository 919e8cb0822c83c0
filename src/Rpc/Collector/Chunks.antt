-- ===== src/Rpc/Collector/Chunks.antt =====
-- What a collector makes of a stream does not depend on how the pipe cut it.
use smb1client_rs.Base.{
  ℕ, zero, suc, ◌+◌, ◌<◌, ◌≡◌, refl, sym, ◌∙◌, ap, not, ◌==◌, ltb, Option, none, some, List, [],
  ◌∷◌, ◌++◌, length, length-append, get_from, arith, Result, ok, err, ok_or, map_err, ◌>>=◌,
  Bool-cases, inl, inr,
}
use smb1client_rs.Rpc.Pdu.{
  PduError, PduStream, PduHeader, push, parse, header_len, ptype_fault, pdu_cap, stub_cap,
  truncated,
}
use smb1client_rs.Rpc.Pdu.Cut.{waits, fails, cuts, next-Cut}
use smb1client_rs.Rpc.Collector.{
  Collector, Halt, failed, opened, prologue, take_payload, take_unit, take_header, accept, drain,
  feed,
}
use mathlib.Core.List.{append_assoc, append-nil}

-- The same collector, over another stream.
abbrev pub over : PduStream → Collector → Collector
over s c = record c { stream = s }

abbrev pub over_all : PduStream → Result PduError Collector → Result PduError Collector
over_all s (ok c) = ok (over s c)
over_all s (err e) = err e

take_payload-over :
    (s : PduStream) (c : Collector) (h : PduHeader) (payload : List ℕ)
    → take_payload (over s c) h payload ≡ over_all s (take_payload c h payload)
take_payload-over s c h payload =
    elim (Bool-cases (ltb stub_cap (length c.payload + length payload))) [
      | inl k ↦ rw (take_payload, k) refl
      | inr k ↦ rw (take_payload, k) refl
    ]

take_unit-over :
    (s : PduStream) (c : Collector) (fragment : List ℕ) (h : PduHeader) (ptype : ℕ)
    → take_unit (over s c) fragment h ptype ≡ over_all s (take_unit c fragment h ptype)
take_unit-over s c fragment h ptype = elim (Bool-cases (ltb pdu_cap (c.pdus + 1))) [
  | inl k ↦ rw (take_unit, k) refl
  | inr k ↦ rw (take_unit, k) (rest (get_from (header_len + prologue h) fragment))
]
  where
    rest :
        (o : Option (List ℕ))
        → (ok_or o (truncated (header_len + prologue h) (length fragment))
            >>= take_payload (record (over s c) { ptype = some ptype; pdus = c.pdus + 1 }) h)
          ≡ over_all s (
              ok_or o (truncated (header_len + prologue h) (length fragment))
              >>= take_payload (record c { ptype = some ptype; pdus = c.pdus + 1 }) h)
    rest none = refl
    rest (some payload) =
        take_payload-over s (record c { ptype = some ptype; pdus = c.pdus + 1 }) h payload

take_header-over :
    (s : PduStream) (c : Collector) (fragment : List ℕ) (h : PduHeader)
    → take_header (over s c) fragment h ≡ over_all s (take_header c fragment h)
take_header-over s c fragment h = elim (Bool-cases (not (h.call_id == c.call_id))) [
  | inl k ↦ rw (take_header, k) refl
  | inr k ↦ elim (Bool-cases (h.ptype == ptype_fault)) [
    | inl l ↦ rw (take_header, k, l) refl
    | inr l ↦ rw (take_header, k, l) (rest (opened c.ptype h))
  ]
]
  where
    rest :
        (o : Result PduError ℕ)
        → (o >>= take_unit (over s c) fragment h) ≡ over_all s (o >>= take_unit c fragment h)
    rest (err e) = refl
    rest (ok ptype) = take_unit-over s c fragment h ptype

-- `accept` neither reads the stream nor changes it.
pub accept-over :
    (s : PduStream) (c : Collector) (fragment : List ℕ)
    → accept (over s c) fragment ≡ over_all s (accept c fragment)
unfolding accept
accept-over s c fragment = elim (Bool-cases c.complete) [
  | inl k ↦ rw (accept, k) refl
  | inr k ↦ rw (accept, k) (rest (parse fragment))
]
  where
    rest :
        (o : Result PduError PduHeader)
        → (o >>= take_header (over s c) fragment) ≡ over_all s (o >>= take_header c fragment)
    rest (err e) = refl
    rest (ok h) = take_header-over s c fragment h

-- Two ways to go on that agree on what a unit leaves.
and_then_agree :
    (s t : PduStream) (r : Result PduError Collector) (j k : Collector → Result Halt Collector)
    → ((c : Collector) → j (over s c) ≡ k (over t c))
    → (map_err failed (over_all s r) >>= j) ≡ (map_err failed (over_all t r) >>= k)
and_then_agree s t (err e) j k h = refl
and_then_agree s t (ok c) j k h = h c

and_then_assoc :
    (r : Result Halt Collector) (j k : Collector → Result Halt Collector)
    → (r >>= (λ c. (j c >>= k))) ≡ ((r >>= j) >>= k)
and_then_assoc (err e) j k = refl
and_then_assoc (ok c) j k = refl

-- More fuel than there are bytes is enough, however much it is.
pub drain_enough :
    (f g : ℕ) (c : Collector)
    → length c.stream.pending < f
    → length c.stream.pending < g
    → drain f c ≡ drain g c
unfolding drain
drain_enough zero g c h k = absurd (omega (arith, h))
drain_enough (suc f) zero c h k = absurd (omega (arith, k))
drain_enough (suc f) (suc g) c h k = elim (next-Cut c.stream) [
  | waits e ↦ rw e refl
  | fails fault e more ↦ rw e refl
  | cuts fragment rest e shorter more ↦
      let s : PduStream = record { pending = rest } in
      rw (e, accept-over s c fragment)
        (and_then_agree s s (accept c fragment) (drain f) (drain g) (λ c'.
          drain_enough f g (over s c') (omega (arith, shorter, h)) (omega (arith, shorter, k))))
]

-- Bytes that come after a loop has run, or before it runs.
drain-push :
    (f g : ℕ) (c : Collector) (b : List ℕ)
    → length c.stream.pending < f
    → length (c.stream.pending ++ b) < g
    → drain g (over (push c.stream b) c) ≡ (drain f c >>= λ c'. feed c' b)
unfolding drain feed
drain-push zero g c b h k = absurd (omega (arith, h))
drain-push (suc f) zero c b h k = absurd (omega (arith, k))
drain-push (suc f) (suc g) c b h k = elim (next-Cut c.stream) [
  | waits e ↦
      drain_enough (suc g) (suc (length (c.stream.pending ++ b))) (over (push c.stream b) c) k
        (omega arith)
      ∙ rw e refl
  | fails fault e more ↦ rw (e, more b) refl
  | cuts fragment rest e shorter more ↦
      let s : PduStream = record { pending = rest } in
      rw (e, more b, accept-over s c fragment, accept-over (push s b) c fragment)
        (and_then_agree (push s b) s (accept c fragment) (drain g)
            (λ c'. (drain f c' >>= λ c''. feed c'' b))
            (λ c'.
              drain-push f g (over s c') b (omega (arith, shorter, h))
                (omega (arith, shorter, k, length-append rest b, length-append c.stream.pending b)))
          ∙ and_then_assoc (map_err failed (over_all s (accept c fragment))) (drain f)
              (λ c'. feed c' b))
]

feed-append : (c : Collector) (a b : List ℕ) → feed c (a ++ b) ≡ (feed c a >>= λ c'. feed c' b)
unfolding feed
feed-append c a b = rw (sym (append_assoc c.stream.pending a b)) (
    drain-push (suc (length (c.stream.pending ++ a))) (suc (length (c.stream.pending ++ a ++ b)))
      (over (push c.stream a) c) b (omega arith) (omega arith))

-- The pipe's reads, one after the other.
abbrev pub feed_all : Collector → List (List ℕ) → Result Halt Collector
feed_all c [] = ok c
feed_all c (bytes ∷ reads) = feed c bytes >>= λ c'. feed_all c' reads

abbrev pub concat : List (List ℕ) → List ℕ
concat [] = []
concat (bytes ∷ reads) = bytes ++ concat reads

and_then_ok : (r : Result Halt Collector) → (r >>= λ c. ok c) ≡ r
and_then_ok (err e) = refl
and_then_ok (ok c) = refl

and_then_eq :
    (r : Result Halt Collector) (j k : Collector → Result Halt Collector)
    → ((c : Collector) → j c ≡ k c)
    → (r >>= j) ≡ (r >>= k)
and_then_eq (err e) j k h = refl
and_then_eq (ok c) j k h = h c

-- However the pipe cuts a stream into reads, one at least, the collector ends as if one read had brought
-- it all: with the same collector, or with the same error.
pub feed_all-concat :
    (c : Collector) (bytes : List ℕ) (reads : List (List ℕ))
    → feed_all c (bytes ∷ reads) ≡ feed c (concat (bytes ∷ reads))
feed_all-concat c bytes [] = and_then_ok (feed c bytes) ∙ ap (feed c) (sym (append-nil bytes))
feed_all-concat c bytes (more ∷ reads) =
    and_then_eq (feed c bytes) (λ c'. feed_all c' (more ∷ reads))
      (λ c'. feed c' (concat (more ∷ reads))) (λ c'. feed_all-concat c' more reads)
    ∙ sym (feed-append c bytes (concat (more ∷ reads)))
