-- ===== src/Connection/Entry.antt =====
-- One row of the table of src/connection/table.rs: a request, and what an arrival does to it.
pub mod Delivery
use smb1client_rs.Base.{
  ℕ, zero, suc, ◌+◌, min, Bool, true, false, ◌==◌, not, if◌then◌else◌, Option, none, some, List, [],
  ◌∷◌, ◌++◌, Result, ok, err, map_err,
}
use smb1client_rs.Status.{pending, success}
use smb1client_rs.Wire.Binrw.{Binrw}
use smb1client_rs.Wire.Message.{Message}
use smb1client_rs.Wire.Transaction.{TransactionResponse, decode}
use smb1client_rs.Connection.Error.{Error, wire, reassembly, TransactionBody, Reply}
use smb1client_rs.Connection.Assembly.{Assembly, Progress, continuing, complete, finish}
use smb1client_rs.Connection.Assembly
use smb1client_rs.Connection.Track.{ReassemblyError}

-- A oneshot sender and a `RequestOutcome` are numbers that tell one from another.
pub data State : Type 0 where
  on_wire : (reply : Option ℕ) (silence_at overall_at : ℕ) → State
  lapsed : (give_up_at : ℕ) → State
  retired : State

pub record Entry : Type 0 where
  pub command : ℕ
  pub assembly : Option Assembly
  pub outcome : Option ℕ
  pub state : State

-- What leaves the table: `ended` is `RequestOutcome::ended`, `sent` is `oneshot::Sender::send`,
-- whether or not its receiver has gone.
pub data Effect : Type 0 where
  ended : (outcome : ℕ) → Result Error Reply → Effect
  sent : (reply : ℕ) → Result Error Reply → Effect

-- `Step`, and the panic of an `expect` of `Entry::accept`, at which the source goes no further.
pub data Step : Type 0 where
  goes_on completed corrupted expect_failed : Step

pub data Arrival : Type 0 where
  interim : Arrival
  fragment : TransactionResponse → Arrival
  whole : Option TransactionBody → Arrival

body_of : TransactionResponse → TransactionBody
body_of r = record { setup = r.setup; parameters = r.parameters; payload = r.payload }

-- `classify`
unfoldable pub classify : Binrw → Message → Bool → Result Error Arrival
unfolding body_of
classify binrw m reassembles =
    if m.header.status == pending
    then ok interim
    else if not reassembles
    then ok (whole none)
    else if m.header.status == success
    then (elim (decode binrw m) [ ok r ↦ ok (fragment r) | err e ↦ err (wire e) ])
    else (elim (decode binrw m) [ ok r ↦ ok (whole (some (body_of r))) | err e ↦ ok (whole none) ])

abbrev deadline_of : State → Option ℕ
deadline_of (on_wire reply silence_at overall_at) = some (min silence_at overall_at)
deadline_of (lapsed give_up_at) = some give_up_at
deadline_of retired = none

-- `Entry::expires_at`
abbrev pub expires_at : Entry → Option ℕ
expires_at e = deadline_of e.state

abbrev pub is_on_wire : State → Bool
is_on_wire (on_wire reply silence_at overall_at) = true
is_on_wire (lapsed give_up_at) = false
is_on_wire retired = false

-- `Entry::charges`
abbrev pub charges : Entry → Bool
charges e = is_on_wire e.state

touched : State → ℕ → State
touched (on_wire reply silence_at overall_at) at = on_wire reply at overall_at
touched (lapsed give_up_at) at = lapsed give_up_at
touched retired at = retired

abbrev pub is_retired : State → Bool
is_retired (on_wire reply silence_at overall_at) = false
is_retired (lapsed give_up_at) = false
is_retired retired = true

-- `Entry::touch`
unfoldable pub touch : Entry → (now per_request : ℕ) → Entry
unfolding touched
touch e now per_request = record e { state = touched e.state (now + per_request) }

abbrev pub told : Option ℕ → Result Error Reply → List Effect
told none result = []
told (some o) result = ended o result ∷ []

abbrev pub answered : Option ℕ → Result Error Reply → List Effect
answered none result = []
answered (some r) result = sent r result ∷ []

-- `Entry::deliver`, by the state of the entry. Only a request on the wire has anybody to tell: its
-- outcome and its sender are both taken.
unfoldable pub deliver_in : State → Entry → Result Error Reply → Entry × List Effect
deliver_in (on_wire reply silence_at overall_at) e result = (
  record e { outcome = none; state = on_wire none silence_at overall_at },
  told e.outcome result ++ answered reply result,
)
deliver_in (lapsed give_up_at) e result = (e, [])
deliver_in retired e result = (e, [])

unfoldable pub deliver : Entry → Result Error Reply → Entry × List Effect
unfolding deliver_in
deliver e result = deliver_in e.state e result

-- `Entry::corrupt`
corrupt : Entry → Error → Entry × Step × List Effect
unfolding deliver
corrupt e error = let (e', effects) = deliver e (err error) in (e', corrupted, effects)

-- The arm of `Entry::accept` for a fragment, by what the reassembly made of it.
take_progress :
    Result ReassemblyError (Assembly × Progress) → Entry → Message → Entry × Step × List Effect
unfolding corrupt deliver
take_progress (err error) e m = corrupt e (reassembly error)
take_progress (ok (a, continuing)) e m = (record e { assembly = some a }, goes_on, [])
take_progress (ok (a, complete)) e m =
    let (setup, parameters, payload) = finish a in
    let body : TransactionBody = record {
      setup = setup;
      parameters = parameters;
      payload = payload;
    } in
    let (e', effects) =
      deliver (record e { assembly = none })
        (ok (record { message = m; transaction = some body })) in
    (e', completed, effects)

-- Its arm for a complete response.
take_whole : Entry → Message → Option TransactionBody → Entry × Step × List Effect
unfolding deliver
take_whole e m transaction =
    let (e', effects) = deliver e (ok (record { message = m; transaction = transaction })) in
    (e', completed, effects)

-- What a fragment finds. Without a reassembly the source panics: "only a request holding a
-- reassembly classifies a fragment".
take_fragment_in :
    Option Assembly → Entry → Message → TransactionResponse → Entry × Step × List Effect
unfolding take_progress
take_fragment_in none e m r = (e, expect_failed, [])
take_fragment_in (some a) e m r = take_progress (Assembly.accept a r) e m

-- The match of `Entry::accept` on what `classify` answers.
take_arrival : Result Error Arrival → Entry → Message → Entry × Step × List Effect
unfolding take_fragment_in take_whole corrupt
take_arrival (err error) e m = corrupt e error
take_arrival (ok interim) e m = (e, goes_on, [])
take_arrival (ok (whole transaction)) e m = take_whole e m transaction
take_arrival (ok (fragment r)) e m = take_fragment_in e.assembly e m r

abbrev is_some : Option Assembly → Bool
is_some none = false
is_some (some a) = true

-- `Entry::accept`
unfoldable pub accept : Binrw → Entry → Message → (now per_request : ℕ) → Entry × Step × List Effect
unfolding classify touch take_arrival
accept binrw e m now per_request =
    let e' = touch e now per_request in take_arrival (classify binrw m (is_some e'.assembly)) e' m
