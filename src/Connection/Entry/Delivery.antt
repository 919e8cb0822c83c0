-- ===== src/Connection/Entry/Delivery.antt =====
-- What an arrival leaves of a request's kind, and whom it tells.
use smb1client_rs.Base.{
  Bool, true, false, ℕ, ◌+◌, ◌≡◌, refl, ◌∙◌, Option, none, some, List, [], ◌++◌, Result, ok, err,
  arith,
}
use smb1client_rs.Wire.Binrw.{Binrw}
use smb1client_rs.Wire.Message.{Message}
use smb1client_rs.Wire.Transaction.{TransactionResponse}
use smb1client_rs.Connection.Error.{Error, Reply}
use smb1client_rs.Connection.Assembly.{Assembly, Progress, continuing, complete, finish}
use smb1client_rs.Connection.Assembly
use smb1client_rs.Connection.Track.{ReassemblyError}
use smb1client_rs.Connection.Entry.{
  Entry, State, on_wire, lapsed, retired, Effect, Step, goes_on, completed, corrupted,
  expect_failed, Arrival, interim, fragment, whole, charges, is_retired, classify, touch, touched,
  deliver, deliver_in, corrupt, take_progress, take_fragment_in, take_whole, take_arrival, told,
  answered, accept, is_some,
}

-- Neither the command nor the kind of state is another.
pub record SameKind (e e' : Entry) : Type 0 where
  pub command_eq : e'.command ≡ e.command
  pub charges_eq : charges e' ≡ charges e
  pub retired_eq : is_retired e'.state ≡ is_retired e.state

SameKind-refl : (e : Entry) → SameKind e e
SameKind-refl e = record { command_eq = refl; charges_eq = refl; retired_eq = refl }

SameKind-trans : {e e' e'' : Entry} → SameKind e e' → SameKind e' e'' → SameKind e e''
SameKind-trans p q = record {
  command_eq = q.command_eq ∙ p.command_eq;
  charges_eq = q.charges_eq ∙ p.charges_eq;
  retired_eq = q.retired_eq ∙ p.retired_eq;
}

deliver-SameKind : (e : Entry) (result : Result Error Reply) → SameKind e (deliver e result).0
unfolding deliver
deliver-SameKind e result = ground arith

touch-SameKind : (e : Entry) (now per_request : ℕ) → SameKind e (touch e now per_request)
unfolding touch
touch-SameKind e now per_request = ground arith

take_progress-SameKind :
    (p : Result ReassemblyError (Assembly × Progress)) (e : Entry) (m : Message)
    → SameKind e (take_progress p e m).0
unfolding take_progress corrupt
take_progress-SameKind (err error) e m = deliver-SameKind e _
take_progress-SameKind (ok (a, continuing)) e m = record {
  command_eq = refl;
  charges_eq = refl;
  retired_eq = refl;
}
take_progress-SameKind (ok (a, complete)) e m =
    SameKind-trans {e = e} {e' = record e { assembly = none }}
      (record { command_eq = refl; charges_eq = refl; retired_eq = refl })
      (deliver-SameKind (record e { assembly = none }) _)

take_fragment_in-SameKind :
    (o : Option Assembly) (e : Entry) (m : Message) (r : TransactionResponse)
    → SameKind e (take_fragment_in o e m r).0
unfolding take_fragment_in
take_fragment_in-SameKind none e m r = SameKind-refl e
take_fragment_in-SameKind (some a) e m r = take_progress-SameKind (Assembly.accept a r) e m

take_arrival-SameKind :
    (arrival : Result Error Arrival) (e : Entry) (m : Message)
    → SameKind e (take_arrival arrival e m).0
unfolding take_arrival take_whole corrupt
take_arrival-SameKind (err error) e m = deliver-SameKind e _
take_arrival-SameKind (ok interim) e m = SameKind-refl e
take_arrival-SameKind (ok (whole transaction)) e m = deliver-SameKind e _
take_arrival-SameKind (ok (fragment r)) e m = take_fragment_in-SameKind e.assembly e m r

-- An arrival changes neither a request's command nor whether it is on the wire, lapsed or retired.
pub accept-SameKind :
    (binrw : Binrw) (e : Entry) (m : Message) (now per_request : ℕ)
    → SameKind e (accept binrw e m now per_request).0
unfolding accept
accept-SameKind binrw e m now per_request =
    SameKind-trans (touch-SameKind e now per_request)
      (take_arrival-SameKind _ (touch e now per_request) m)

-- Whom the end of a request tells, by its state: its outcome and its waiting caller, if it is on
-- the wire, and nobody else.
abbrev pub notices : State → Option ℕ → Result Error Reply → List Effect
notices (on_wire reply silence_at overall_at) outcome result =
    told outcome result ++ answered reply result
notices (lapsed give_up_at) outcome result = []
notices retired outcome result = []

-- An arrival that leaves the request going tells nobody, and one that ends it tells all there is to
-- tell, one result, once; no arrival meets a panic.
abbrev pub Tells : Entry → Entry × Step × List Effect → Type 0
Tells e (e', goes_on, effects) = (effects ≡ []) × (e'.outcome ≡ e.outcome)
Tells e (e', completed, effects) =
    (result : Result Error Reply) × (effects ≡ notices e.state e.outcome result)
Tells e (e', corrupted, effects) =
    (error : Error) × (effects ≡ notices e.state e.outcome (err error))
Tells e (e', expect_failed, effects) = ⊥

pub deliver-notices :
    (e : Entry) (result : Result Error Reply)
    → (deliver e result).1 ≡ notices e.state e.outcome result
unfolding deliver
deliver-notices e result = go e.state
  where
    go : (s : State) → (deliver_in s e result).1 ≡ notices s e.outcome result
    go (on_wire reply silence_at overall_at) = refl
    go (lapsed give_up_at) = refl
    go retired = refl

corrupt-Tells : (e : Entry) (error : Error) → Tells e (corrupt e error)
unfolding corrupt
corrupt-Tells e error = (error, deliver-notices e (err error))

take_progress-Tells :
    (p : Result ReassemblyError (Assembly × Progress)) (e : Entry) (m : Message)
    → Tells e (take_progress p e m)
unfolding take_progress
take_progress-Tells (err error) e m = corrupt-Tells e _
take_progress-Tells (ok (a, continuing)) e m = (refl, refl)
take_progress-Tells (ok (a, complete)) e m = (_, deliver-notices (record e { assembly = none }) _)

take_fragment_in-Tells :
    (o : Option Assembly) (e : Entry) (m : Message) (r : TransactionResponse)
    → is_some o ≡ true
    → Tells e (take_fragment_in o e m r)
unfolding take_fragment_in
take_fragment_in-Tells none e m r h = ground (arith, h)
take_fragment_in-Tells (some a) e m r h = take_progress-Tells (Assembly.accept a r) e m

take_arrival-Tells :
    (arrival : Result Error Arrival) (e : Entry) (m : Message)
    → ((r : TransactionResponse) → arrival ≡ ok (fragment r) → is_some e.assembly ≡ true)
    → Tells e (take_arrival arrival e m)
unfolding take_arrival take_whole
take_arrival-Tells (err error) e m h = corrupt-Tells e error
take_arrival-Tells (ok interim) e m h = (refl, refl)
take_arrival-Tells (ok (whole transaction)) e m h = (_, deliver-notices e _)
take_arrival-Tells (ok (fragment r)) e m h = take_fragment_in-Tells e.assembly e m r (h r refl)

notices-touched :
    (s : State) (at : ℕ) (outcome : Option ℕ) (result : Result Error Reply)
    → notices (touched s at) outcome result ≡ notices s outcome result
unfolding touched
notices-touched (on_wire reply silence_at overall_at) at outcome result = refl
notices-touched (lapsed give_up_at) at outcome result = refl
notices-touched retired at outcome result = refl

Tells-touch :
    (e : Entry) (now per_request : ℕ) (x : Entry × Step × List Effect)
    → Tells (touch e now per_request) x
    → Tells e x
unfolding touch
Tells-touch e now per_request (e', goes_on, effects) h = h
Tells-touch e now per_request (e', completed, effects) (result, h) =
    (result, h ∙ notices-touched e.state (now + per_request) e.outcome result)
Tells-touch e now per_request (e', corrupted, effects) (error, h) =
    (error, h ∙ notices-touched e.state (now + per_request) e.outcome (err error))
Tells-touch e now per_request (e', expect_failed, effects) h = h

-- Only a request with a reassembly has a message classified as a fragment.
classify-fragment :
    (binrw : Binrw) (m : Message) (reassembles : Bool) (r : TransactionResponse)
    → classify binrw m reassembles ≡ ok (fragment r)
    → reassembles ≡ true
unfolding classify
classify-fragment binrw m true r e = refl
classify-fragment binrw m false r e = ground (arith, e)

-- What `Entry::accept` tells: nobody while the request goes on; at its end, by a reply or an error,
-- its outcome and its caller, each once and with the same result, if it was on the wire; and nobody
-- at all for a request that has lapsed. No `expect` of it fails.
pub accept-Tells :
    (binrw : Binrw) (e : Entry) (m : Message) (now per_request : ℕ)
    → Tells e (accept binrw e m now per_request)
unfolding accept
accept-Tells binrw e m now per_request =
    let e' = touch e now per_request in
    let arrival = classify binrw m (is_some e'.assembly) in
    Tells-touch e now per_request (take_arrival arrival e' m)
      (take_arrival-Tells arrival e' m (λ r. classify-fragment binrw m (is_some e'.assembly) r))

-- Every step but the panic.
abbrev pub IsStep : Step → Type 0
IsStep goes_on = Unit {0}
IsStep completed = Unit {0}
IsStep corrupted = Unit {0}
IsStep expect_failed = ⊥

pub Tells-IsStep : (e : Entry) (x : Entry × Step × List Effect) → Tells e x → IsStep x.1
Tells-IsStep e (e', goes_on, effects) h = tt
Tells-IsStep e (e', completed, effects) h = tt
Tells-IsStep e (e', corrupted, effects) h = tt
Tells-IsStep e (e', expect_failed, effects) h = h
