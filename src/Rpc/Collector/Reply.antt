-- ===== src/Rpc/Collector/Reply.antt =====
-- A reply that keeps to the protocol is collected whole, in however many units and reads it comes.
use smb1client_rs.Base.{
  ◌^◌, ℕ, zero, suc, ◌+◌, ◌≤◌, ◌<◌, ◌≡◌, refl, sym, ◌∙◌, ap, Bool, true, false, not, ◌==◌, ltb,
  none, some, List, [], ◌∷◌, ◌++◌, length, length-append, arith, Result, ok, ◌⊎◌, inl, inr,
}
use smb1client_rs.Rpc.Pdu
use smb1client_rs.Rpc.Pdu.{
  to_le_bytes_u32, response_prologue, ptype_response, PduError, PduStream, PduHeader, Answer, parse,
  header_len, ptype_fault, ptype_response, response_prologue, pdu_cap, stub_cap,
}
use smb1client_rs.Rpc.Pdu.RoundTrip.{next-append}
use smb1client_rs.Rpc.Collector.{
  Collector, Halt, opened, take_payload, take_unit, take_header, accept, drain, feed, new, finish,
}
use smb1client_rs.Rpc.Collector.Chunks.{over, feed_all, concat, feed_all-concat}
use mathlib.Core.List.{append_assoc}
use smb1client_rs.Rpc.Collector.Unit.{IsUnit, IsRead, IsUnit-IsRead}

-- The units carry the payload, in order: the first says that it is the first, and the last alone that it
-- is the last.
abbrev pub Carries : (call_id ptype : ℕ) → (first : Bool) → List (List ℕ) → List ℕ → Type 0
Carries call_id ptype first [] payload = ⊥
Carries call_id ptype first (unit ∷ []) payload = IsUnit call_id ptype first true payload unit
Carries call_id ptype first (unit ∷ next ∷ units) payload =
    (front rest : List ℕ) × (payload ≡ front ++ rest)
    × IsUnit call_id ptype first false front unit
    × Carries call_id ptype false (next ∷ units) rest

-- What a unit makes of a collector that waits for it.
taken : Collector → (ptype : ℕ) → (last : Bool) → List ℕ → Collector
taken c ptype last payload = record c {
  ptype = some ptype;
  pdus = c.pdus + 1;
  payload = c.payload ++ payload;
  complete = last;
}

accept-unit :
    (c : Collector) (ptype : ℕ) (first last : Bool) (payload unit : List ℕ)
    → (u : IsRead c.call_id ptype first last payload unit) → c.complete ≡ false
    → opened c.ptype u.header ≡ ok ptype
    → (ptype == ptype_fault) ≡ false
    → c.pdus + 1 ≤ pdu_cap
    → length c.payload + length payload ≤ stub_cap
    → accept c unit ≡ ok (taken c ptype last payload)
unfolding accept taken
accept-unit c ptype first last payload unit u going opens calm few small =
    simp
      (
        accept, going, u.parsed, take_header, called, calm', opens, take_unit, units, u.carried,
        take_payload, bytes, u.ends,
      )
      refl
  where
    called : not (u.header.call_id == c.call_id) ≡ false
    called = ground (arith, u.called)

    calm' : (u.header.ptype == ptype_fault) ≡ false
    calm' = ap (λ t. t == ptype_fault) u.typed ∙ calm

    units : ltb pdu_cap (c.pdus + 1) ≡ false
    units = ground (arith, few)

    bytes : ltb stub_cap (length c.payload + length payload) ≡ false
    bytes = ground (arith, small)

opening :
    (c : Collector) (ptype : ℕ) (first last : Bool) (payload unit : List ℕ)
    → (u : IsRead c.call_id ptype first last payload unit)
    → (c.ptype ≡ some ptype) ⊎ (c.ptype ≡ none) × (first ≡ true)
    → opened c.ptype u.header ≡ ok ptype
opening c ptype first last payload unit u (inl e) = simp e (ground (arith, u.typed))
opening c ptype first last payload unit u (inr (e, is)) = simp (e, u.opens is) (ap ok u.typed)

-- A reply collected whole, with what was there before it.
Whole : Collector → (ptype : ℕ) → List ℕ → Result Halt Collector → Type 0
Whole c ptype payload r =
    (c' : Collector) × (r ≡ ok c')
    × (c'.ptype ≡ some ptype)
    × (c'.payload ≡ c.payload ++ payload)
    × (c'.complete ≡ true)

drain-unit :
    (fuel : ℕ) (c : Collector) (ptype : ℕ) (first last : Bool) (payload unit rest : List ℕ)
    → (u : IsRead c.call_id ptype first last payload unit) → c.complete ≡ false
    → opened c.ptype u.header ≡ ok ptype
    → (ptype == ptype_fault) ≡ false
    → c.pdus + 1 ≤ pdu_cap
    → length c.payload + length payload ≤ stub_cap
    → drain (suc fuel) (over (record { pending = unit ++ rest }) c)
      ≡ drain fuel (over (record { pending = rest }) (taken c ptype last payload))
unfolding drain taken
drain-unit fuel c ptype first last payload unit rest u going opens calm few small =
    let s : PduStream = record { pending = rest } in
    rw
      (
        next-append unit rest u.long u.whole,
        accept-unit (over s c) ptype first last payload unit u going opens calm few small,
      )
      refl

drain_empty :
    (fuel : ℕ) (c : Collector)
    → drain (suc fuel) (over (record { pending = [] }) c) ≡ ok (over (record { pending = [] }) c)
unfolding drain Pdu.next
drain_empty fuel c = refl

-- Units after the first, or the first with what opens the reply.
drain-Whole :
    (fuel : ℕ) (c : Collector) (ptype : ℕ) (first : Bool) (units : List (List ℕ)) (payload : List ℕ)
    → Carries c.call_id ptype first units payload
    → c.call_id < 2 ^ 32
    → c.complete ≡ false
    → (c.ptype ≡ some ptype) ⊎ (c.ptype ≡ none) × (first ≡ true)
    → (ptype == ptype_fault) ≡ false
    → c.pdus + length units ≤ pdu_cap
    → length c.payload + length payload ≤ stub_cap
    → length units < fuel
    → Whole c ptype payload (drain fuel (over (record { pending = concat units }) c))
unfolding Whole taken
drain-Whole fuel c ptype first [] payload k id going opens calm few small h = absurd k
drain-Whole zero c ptype first (unit ∷ units) payload k id going opens calm few small h =
    absurd (omega (arith, h))
drain-Whole (suc zero) c ptype first (unit ∷ units) payload k id going opens calm few small h =
    absurd (omega (arith, h))
drain-Whole (suc (suc fuel)) c ptype first (unit ∷ []) payload k id going opens calm few small h =
    let u = IsUnit-IsRead c.call_id ptype first true payload unit id k in
    (
      over (record { pending = [] }) (taken c ptype true payload),
      drain-unit (suc fuel) c ptype first true payload unit [] u going
            (opening c ptype first true payload unit u opens) calm (omega (arith, few)) small
          ∙ drain_empty fuel (taken c ptype true payload),
      refl,
      refl,
      refl,
    )
drain-Whole (suc (suc fuel)) c ptype first (unit ∷ next ∷ units) payload (front, rest, e, v, k) id
      going opens calm few small h =
    let u = IsUnit-IsRead c.call_id ptype first false front unit id v in
    let size : length payload ≡ length front + length rest =
      ap length e ∙ length-append front rest in
    let (c', reads, typed, carried, done) =
      drain-Whole (suc fuel) (taken c ptype false front) ptype false (next ∷ units) rest k id refl
        (inl refl) calm (omega (arith, few))
        (omega (arith, small, size, length-append c.payload front)) (omega (arith, h)) in
    (
      c',
      drain-unit (suc fuel) c ptype first false front unit (concat (next ∷ units)) u going
            (opening c ptype first false front unit u opens) calm (omega (arith, few))
            (omega (arith, small, size))
          ∙ reads,
      typed,
      carried ∙ append_assoc c.payload front rest ∙ ap (λ p. c.payload ++ p) (sym e),
      done,
    )

length-concat :
    (call_id ptype : ℕ) (first : Bool) (units : List (List ℕ)) (payload : List ℕ)
    → call_id < 2 ^ 32
    → Carries call_id ptype first units payload
    → length units ≤ length (concat units)
length-concat call_id ptype first [] payload h k = absurd k
length-concat call_id ptype first (unit ∷ []) payload h u =
    omega
      (arith, (IsUnit-IsRead call_id ptype first true payload unit h u).long, length-append unit [])
length-concat call_id ptype first (unit ∷ next ∷ units) payload h (front, rest, e, u, k) = omega (
  arith,
  (IsUnit-IsRead call_id ptype first false front unit h u).long,
  length-append unit (concat (next ∷ units)),
  length-concat call_id ptype false (next ∷ units) rest h k,
)

-- If a reply to a call with an id of 32 bits comes in at most 1,972 units of at most 8 MiB of payload
-- together, laid out as the protocol says, each with the call id and the type of the reply, which is no
-- fault, the first marked as the first and the last alone as the last, then the collector gives exactly
-- its payload, however the pipe cuts the units into reads.
pub feed_all-collects :
    (call_id ptype : ℕ) (units : List (List ℕ)) (payload bytes : List ℕ) (reads : List (List ℕ))
    → Carries call_id ptype true units payload
    → call_id < 2 ^ 32
    → (ptype == ptype_fault) ≡ false
    → length units ≤ pdu_cap
    → length payload ≤ stub_cap
    → concat (bytes ∷ reads) ≡ concat units
    → (c : Collector) × (feed_all (new call_id) (bytes ∷ reads) ≡ ok c)
      × (finish c ≡ ok (record { ptype = ptype; payload = payload }))
unfolding feed Whole finish
feed_all-collects call_id ptype units payload bytes reads k id calm few small e =
    let (c, fed, typed, carried, done) =
      drain-Whole (suc (length (concat units))) (new call_id) ptype true units payload k id refl
        (inr (refl, refl)) calm (omega (arith, few)) (omega (arith, small))
        (omega (arith, length-concat call_id ptype true units payload id k)) in
    (
      c,
      feed_all-concat (new call_id) bytes reads ∙ ap (feed (new call_id)) e ∙ fed,
      simp (finish, typed, carried, done) refl,
    )
