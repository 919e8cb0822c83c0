-- ===== src/Connection/Table/Tests.antt =====
-- The theorems on the request table at concrete inputs: one echo request, on the wire under the id 0.
use smb1client_rs.Base.{ℕ, ◌≤◌, ◌≡◌, refl, none, some, [], arith, err}
use smb1client_rs.Base.Dict.{lookup}
use smb1client_rs.Wire.Binrw.{Binrw}
use smb1client_rs.Wire.Error.{malformed}
use smb1client_rs.Wire.Header.{request}
use smb1client_rs.Wire.Message.{Message}
use smb1client_rs.Connection.Error.{Timeouts, lost}
use smb1client_rs.Connection.Entry
use smb1client_rs.Connection.Entry.{Entry, on_wire}
use smb1client_rs.Connection.Entry.Delivery.{Tells, accept-Tells}
use smb1client_rs.Connection.Table.{
  RequestTable, new, last_mid, probe, allocate, dispatch, accept, expire,
}
use smb1client_rs.Connection.Table.{fail_all, next_expiry}
use smb1client_rs.Connection.Table.Valid.{IsValid, new-IsValid}
use smb1client_rs.Connection.Table.Allocate.{
  allocate-IsValid, allocate_free, allocate_finds, dispatch-IsValid,
}
use smb1client_rs.Connection.Table.Steps.{table_accept-IsValid}
use smb1client_rs.Connection.Table.Loss.{all_notices, fail_all_lem}
use smb1client_rs.Connection.Table.Expiry.{IsExpired, expire-IsExpired}

-- The crate's stand-in: it reads nothing.
abbrev no_codec : Binrw
no_codec = record {
  read_header = λ bytes. err malformed;
  write_header = λ h. err malformed;
  read_response_words = λ bytes. err malformed;
}

abbrev timeouts : Timeouts
timeouts = record { per_request = 30; overall = 300 }

abbrev idle : RequestTable
idle = new 50 timeouts

idle-IsValid : IsValid idle
idle-IsValid = new-IsValid 50 timeouts

abbrev busy : RequestTable
busy = dispatch idle 0 0x2B (some 1) none none 100

busy-IsValid : IsValid busy
unfolding new lookup
busy-IsValid = dispatch-IsValid idle 0 0x2B (some 1) none none 100 idle-IsValid refl (omega arith)

abbrev echo : Entry
echo = record { command = 0x2B; assembly = none; outcome = none; state = on_wire (some 1) 130 400 }

-- The answer to the echo request.
abbrev answer : Message
answer = record { header = request 0x2B; bytes = []; word_count = 1; byte_count = 0 }

allocate-IsValid_example : IsValid (allocate busy).0
allocate-IsValid_example = allocate-IsValid busy busy-IsValid

idle_takes : allocate idle ≡ (record idle { cursor = 1 }, some 0)
unfolding allocate new probe lookup
idle_takes = refl

allocate_free_example :
    (lookup 0 idle.entries ≡ none) × (0 ≤ last_mid) × (idle.entries ≡ idle.entries)
unfolding new
allocate_free_example = allocate_free idle (record idle { cursor = 1 }) 0 idle-IsValid idle_takes

allocate_finds_example : (t : RequestTable) × (found : ℕ) × (allocate idle ≡ (t, some found))
unfolding new lookup
allocate_finds_example = allocate_finds idle 5 idle-IsValid (omega arith) (omega arith) refl

dispatch-IsValid_example : IsValid (dispatch idle 7 0x2B (some 1) none none 100)
unfolding new lookup
dispatch-IsValid_example =
    dispatch-IsValid idle 7 0x2B (some 1) none none 100 idle-IsValid refl (omega arith)

table_accept-IsValid_example : IsValid (accept no_codec busy answer 110).0
table_accept-IsValid_example = table_accept-IsValid no_codec busy answer 110 busy-IsValid

expire-IsExpired_example : let (t, r, effects) = expire busy 1_000 in IsExpired 1_000 t r
expire-IsExpired_example = expire-IsExpired busy 1_000 busy-IsValid

accept-Tells_example : Tells echo (Entry.accept no_codec echo answer 110 30)
accept-Tells_example = accept-Tells no_codec echo answer 110 30

fail_all_lem_example :
    ((fail_all busy).0.entries ≡ [])
    × (next_expiry (fail_all busy).0 ≡ none)
    × ((fail_all busy).0.charging ≡ 0)
    × ((fail_all busy).1 ≡ all_notices lost busy.entries)
fail_all_lem_example = fail_all_lem busy
