-- ===== src/Rpc/Tests.antt =====
-- The theorems on remote procedure calls at concrete inputs: a reply of two units to call 7.
use smb1client_rs.Base.{ℕ, ◌≡◌, refl, true, false, some, List, [], ◌∷◌, ◌++◌, arith, ok}
use smb1client_rs.Rpc.Pdu.{pdu, next, parse, ptype_bind}
use smb1client_rs.Rpc.Pdu.RoundTrip.{next-pdu}
use smb1client_rs.Rpc.Collector.{Collector, new, feed, finish}
use smb1client_rs.Rpc.Collector.Chunks.{feed_all, concat, feed_all-concat}
use smb1client_rs.Rpc.Collector.Bounds.{Fed, new-IsCapped, feed-Fed}
use smb1client_rs.Rpc.Collector.Unit.{IsUnit}
use smb1client_rs.Rpc.Collector.Reply.{feed_all-collects}

next-pdu_example :
    (next (record { pending = pdu ptype_bind 7 (1 ∷ 2 ∷ []) ++ (9 ∷ []) })
      ≡ ok (some (pdu ptype_bind 7 (1 ∷ 2 ∷ [])), record { pending = 9 ∷ [] }))
    × (parse (pdu ptype_bind 7 (1 ∷ 2 ∷ []))
        ≡ ok (record { ptype = ptype_bind; flags = 3; call_id = 7 }))
next-pdu_example = next-pdu ptype_bind 7 (1 ∷ 2 ∷ []) (9 ∷ []) (omega arith) (omega arith)

-- A unit of a response, with a prologue of eight zeroes and one byte of payload.
abbrev unit_of : (flags byte : ℕ) → List ℕ
unit_of flags byte =
    5 ∷ 0 ∷ 2 ∷ flags ∷ 0x10 ∷ 0 ∷ 0 ∷ 0 ∷ 25 ∷ 0 ∷ 0 ∷ 0 ∷ 7 ∷ 0 ∷ 0 ∷ 0 ∷ 0 ∷ 0 ∷ 0 ∷ 0 ∷ 0 ∷ 0
    ∷ 0 ∷ 0 ∷ byte ∷ []

abbrev zeroes : List ℕ
zeroes = 0 ∷ 0 ∷ 0 ∷ 0 ∷ 0 ∷ 0 ∷ 0 ∷ 0 ∷ []

first-IsUnit : IsUnit 7 2 true false (11 ∷ []) (unit_of 1 11)
first-IsUnit = record {
  flags = 1;
  auth_low = 0;
  auth_high = 0;
  before = zeroes;
  written = refl;
  before_length = refl;
  small = omega arith;
  opens = omega arith;
  ends = refl;
}

last-IsUnit : IsUnit 7 2 false true (12 ∷ []) (unit_of 2 12)
last-IsUnit = record {
  flags = 2;
  auth_low = 0;
  auth_high = 0;
  before = zeroes;
  written = refl;
  before_length = refl;
  small = omega arith;
  opens = omega arith;
  ends = refl;
}

abbrev two_units : List (List ℕ)
two_units = unit_of 1 11 ∷ unit_of 2 12 ∷ []

-- The reads cut the first unit after three bytes.
feed_all-collects_example :
    (c : Collector) × (feed_all (new 7) (
        (5 ∷ 0 ∷ 2 ∷ [])
        ∷ concat (
            (1 ∷ 0x10 ∷ 0 ∷ 0 ∷ 0 ∷ 25 ∷ 0 ∷ 0 ∷ 0 ∷ 7 ∷ 0 ∷ 0 ∷ 0 ∷ 0 ∷ 0 ∷ 0 ∷ 0 ∷ 0 ∷ 0 ∷ 0 ∷ 0
              ∷ 11 ∷ [])
            ∷ unit_of 2 12
            ∷ [])
        ∷ [])
      ≡ ok c)
    × (finish c ≡ ok (record { ptype = 2; payload = 11 ∷ 12 ∷ [] }))
feed_all-collects_example =
    feed_all-collects 7 2 two_units (11 ∷ 12 ∷ []) (5 ∷ 0 ∷ 2 ∷ [])
      (concat (
          (1 ∷ 0x10 ∷ 0 ∷ 0 ∷ 0 ∷ 25 ∷ 0 ∷ 0 ∷ 0 ∷ 7 ∷ 0 ∷ 0 ∷ 0 ∷ 0 ∷ 0 ∷ 0 ∷ 0 ∷ 0 ∷ 0 ∷ 0 ∷ 0
            ∷ 11 ∷ [])
          ∷ unit_of 2 12
          ∷ [])
        ∷ [])
      (11 ∷ [], 12 ∷ [], refl, first-IsUnit, last-IsUnit) (omega arith) refl (omega arith)
      (omega arith) refl

feed_all-concat_example :
    feed_all (new 7) (unit_of 1 11 ∷ unit_of 2 12 ∷ [])
    ≡ feed (new 7) (concat (unit_of 1 11 ∷ unit_of 2 12 ∷ []))
feed_all-concat_example = feed_all-concat (new 7) (unit_of 1 11) (unit_of 2 12 ∷ [])

feed-Fed_example : Fed (feed (new 7) (unit_of 1 11))
feed-Fed_example = feed-Fed (new 7) (unit_of 1 11) (new-IsCapped 7)
