-- ===== src/Rpc/Collector/Unit.antt =====
-- A unit of a reply as the protocol lays it out, and what the collector reads off it.
use smb1client_rs.Base.{
  take, get_from-append, if◌then◌else◌, ◌%◌, ◌/◌, ◌^◌, ℕ, ◌+◌, ◌≤◌, ◌<◌, ◌≡◌, refl, sym, Bool, true,
  false, not, ◌==◌, ltb, some, List, ◌∷◌, ◌++◌, length, length-append, get_from, arith, ok,
}
use smb1client_rs.Rpc.Pdu.{
  to_le_bytes_u32, response_prologue, ptype_response, PduHeader, parse, header_len, ptype_response,
  response_prologue,
}
use smb1client_rs.Rpc.Pdu.Cut.{declared}
use smb1client_rs.Rpc.Pdu.RoundTrip.{u32_bytes}
use smb1client_rs.Rpc.Collector.{prologue, is_first, is_last}
use mathlib.Core.Path.{subst}

-- The bytes of a unit, as the protocol lays them out.
abbrev pub unit_bytes :
    (call_id ptype flags auth_low auth_high : ℕ) (prologue payload : List ℕ) → List ℕ
unit_bytes call_id ptype flags auth_low auth_high prologue payload =
    let size = 16 + (length prologue + length payload) in
    5
    ∷ 0
    ∷ ptype
    ∷ flags
    ∷ 0x10
    ∷ 0
    ∷ 0
    ∷ 0
    ∷ size % 256
    ∷ size / 256
    ∷ auth_low
    ∷ auth_high
    ∷ (to_le_bytes_u32 call_id ++ (prologue ++ payload))

abbrev pub bit : Bool → ℕ
bit false = 0
bit true = 1

-- A unit of the reply to a call: sixteen bytes, eight more where it is a response, and a payload; if it
-- is the first it says so, and it says that it is the last exactly if it is.
pub record IsUnit (call_id ptype : ℕ) (first last : Bool) (payload unit : List ℕ) : Type 0 where
  pub flags : ℕ
  pub auth_low : ℕ
  pub auth_high : ℕ
  pub before : List ℕ
  pub written : unit ≡ unit_bytes call_id ptype flags auth_low auth_high before payload
  pub before_length : length before ≡ (if ptype == 2 then 8 else 0)
  pub small : length unit < 2 ^ 16
  pub opens : bit first ≤ flags % 2
  pub ends : flags / 2 % 2 ≡ bit last

-- What the collector reads off such a unit.
pub record IsRead (call_id ptype : ℕ) (first last : Bool) (payload unit : List ℕ) : Type 0 where
  pub header : PduHeader
  pub parsed : parse unit ≡ ok header
  pub called : header.call_id ≡ call_id
  pub typed : header.ptype ≡ ptype
  pub opens : first ≡ true → is_first header ≡ true
  pub ends : is_last header ≡ last
  pub long : header_len ≤ length unit
  pub whole : declared unit ≡ length unit
  pub carried : get_from (header_len + prologue header) unit ≡ some payload

parse-unit_bytes :
    (call_id ptype flags low high : ℕ) (before payload : List ℕ)
    → call_id < 2 ^ 32
    → parse (unit_bytes call_id ptype flags low high before payload)
      ≡ ok (record { ptype = ptype; flags = flags; call_id = call_id })
unfolding parse
parse-unit_bytes call_id ptype flags low high before payload h =
    rw (parse, long, u32_bytes call_id h) refl
  where
    long : ltb (length (unit_bytes call_id ptype flags low high before payload)) header_len ≡ false
    long = ground arith

first_flag :
    (first : Bool) (flags : ℕ) → bit first ≤ flags % 2 → first ≡ true → not (flags % 2 == 0) ≡ true
first_flag false flags h e = ground (arith, e)
first_flag true flags h e = ground (arith, h)

last_flag : (last : Bool) (flags : ℕ) → flags / 2 % 2 ≡ bit last → not (flags / 2 % 2 == 0) ≡ last
last_flag false flags h = ground (arith, h)
last_flag true flags h = ground (arith, h)

unit_bytes-IsRead :
    (call_id ptype flags low high : ℕ) (first last : Bool) (before payload : List ℕ)
    → call_id < 2 ^ 32
    → length before ≡ (if ptype == 2 then 8 else 0)
    → length (unit_bytes call_id ptype flags low high before payload) < 2 ^ 16
    → bit first ≤ flags % 2
    → flags / 2 % 2 ≡ bit last
    → IsRead call_id ptype first last payload
        (unit_bytes call_id ptype flags low high before payload)
unit_bytes-IsRead call_id ptype flags low high first last before payload h counted small opens
      ends =
    record {
      header = record { ptype = ptype; flags = flags; call_id = call_id };
      parsed = parse-unit_bytes call_id ptype flags low high before payload h;
      called = refl;
      typed = refl;
      opens = first_flag first flags opens;
      ends = last_flag last flags ends;
      long = omega arith;
      whole = omega (arith, small, length-append before payload);
      carried =
          get_from-append (header_len + (if ptype == ptype_response then response_prologue else 0))
            (take 16 (unit_bytes call_id ptype flags low high before payload) ++ before) payload
            (omega (arith, counted));
    }

pub IsUnit-IsRead :
    (call_id ptype : ℕ) (first last : Bool) (payload unit : List ℕ)
    → call_id < 2 ^ 32
    → IsUnit call_id ptype first last payload unit
    → IsRead call_id ptype first last payload unit
IsUnit-IsRead call_id ptype first last payload unit h u =
    subst (IsRead call_id ptype first last payload) (sym u.written) (
      unit_bytes-IsRead call_id ptype u.flags u.auth_low u.auth_high first last u.before payload h
        u.before_length (subst (λ b. length b < 2 ^ 16) u.written u.small) u.opens u.ends)
