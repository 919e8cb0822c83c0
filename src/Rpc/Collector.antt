-- ===== src/Rpc/Collector.antt =====
-- `Collector` of src/rpc/pdu.rs: the reply that a pipe delivers in units, put together.
pub mod Chunks
pub mod Bounds
pub mod Unit
pub mod Reply
use smb1client_rs.Base.{
  ℕ, zero, suc, ◌+◌, ◌/◌, ◌%◌, Bool, true, false, ◌==◌, not, ltb, if◌then◌else◌, Option, none, some,
  List, [], ◌∷◌, ◌++◌, length, get_from, Result, ok, err, ok_or, map_err, ◌>>=◌,
}
use smb1client_rs.Rpc.Pdu
use smb1client_rs.Rpc.Pdu.{
  PduError, call_id_error, fault_error, not_first_fragment, unexpected_type, too_many_fragments,
  truncated, stub_too_large, no_last_fragment, PduStream, PduHeader, Answer, push, parse,
  fault_status, header_len, response_prologue, ptype_response, ptype_fault, pdu_cap, stub_cap,
}

pub record Collector : Type 0 where
  pub stream : PduStream
  pub call_id : ℕ
  pub ptype : Option ℕ
  pub payload : List ℕ
  pub pdus : ℕ
  pub complete : Bool

-- How a feed stops: an error of the source, or the model's fuel.
pub data Halt : Type 0 where
  failed : PduError → Halt
  out_of_fuel : Halt

-- `Collector::new`
abbrev pub new : (call_id : ℕ) → Collector
new call_id = record {
  stream = record { pending = [] };
  call_id = call_id;
  ptype = none;
  payload = [];
  pdus = 0;
  complete = false;
}

-- `flags & PFC_FIRST_FRAG` and `flags & PFC_LAST_FRAG`: bits 0 and 1.
abbrev pub is_first : PduHeader → Bool
is_first h = not (h.flags % 2 == 0)

abbrev pub is_last : PduHeader → Bool
is_last h = not (h.flags / 2 % 2 == 0)

-- The type of the reply, by the type that its first unit opened.
abbrev pub opened : Option ℕ → PduHeader → Result PduError ℕ
opened none h = if is_first h then ok h.ptype else err not_first_fragment
opened (some ptype) h = if ptype == h.ptype then ok ptype else err (unexpected_type ptype h.ptype)

abbrev pub prologue : PduHeader → ℕ
prologue h = if h.ptype == ptype_response then response_prologue else 0

-- The last steps of `accept`, from the bound on the payload on.
abbrev pub take_payload : Collector → PduHeader → List ℕ → Result PduError Collector
take_payload c h payload =
    if ltb stub_cap (length c.payload + length payload)
    then err stub_too_large
    else ok (record c { payload = c.payload ++ payload; complete = is_last h })

abbrev pub take_unit : Collector → List ℕ → PduHeader → ℕ → Result PduError Collector
take_unit c fragment h ptype =
    if ltb pdu_cap (c.pdus + 1)
    then err too_many_fragments
    else (ok_or (get_from (header_len + prologue h) fragment)
          (truncated (header_len + prologue h) (length fragment))
        >>= take_payload (record c { ptype = some ptype; pdus = c.pdus + 1 }) h)

abbrev pub take_header : Collector → List ℕ → PduHeader → Result PduError Collector
take_header c fragment h =
    if not (h.call_id == c.call_id)
    then err (call_id_error c.call_id h.call_id)
    else if h.ptype == ptype_fault
    then err (fault_error (fault_status fragment))
    else (opened c.ptype h >>= take_unit c fragment h)

-- `Collector::accept`
unfoldable pub accept : Collector → List ℕ → Result PduError Collector
accept c fragment = if c.complete then ok c else (parse fragment >>= take_header c fragment)

-- A round of the loop of `feed`, with what goes on.
abbrev pub round :
    Collector
    → (Collector → Result Halt Collector)
    → Result PduError (Option (List ℕ) × PduStream)
    → Result Halt Collector
round c next (err e) = err (failed e)
round c next (ok (none, s)) = ok (record c { stream = s })
round c next (ok (some fragment, s)) =
    map_err failed (accept (record c { stream = s }) fragment) >>= next

-- The loop of `feed`, on fuel.
pub drain : (fuel : ℕ) → Collector → Result Halt Collector
unfolding accept
drain zero c = err out_of_fuel
drain (suc fuel) c = round c (drain fuel) (Pdu.next c.stream)

-- `Collector::feed`: a unit takes at least sixteen bytes, so there are fewer rounds than bytes.
unfoldable pub feed : Collector → List ℕ → Result Halt Collector
unfolding drain
feed c bytes =
    drain (suc (length (c.stream.pending ++ bytes))) (record c { stream = push c.stream bytes })

-- `Collector::finish`
unfoldable pub finish : Collector → Result PduError Answer
finish c = elim c.ptype [
  | none ↦ err (no_last_fragment c.pdus)
  | some ptype ↦
      if c.complete
      then ok (record { ptype = ptype; payload = c.payload })
      else err (no_last_fragment c.pdus)
]
