-- ===== src/Connection/Table/Loss.antt =====
-- `fail_all`: whom the loss of the connection tells.
use smb1client_rs.Base.{
  ℕ, ◌≡◌, refl, ◌∙◌, ap, Option, none, List, [], ◌∷◌, ◌++◌, Result, err, if◌then◌else◌,
}
use smb1client_rs.Connection.Error.{Error, Reply, lost}
use smb1client_rs.Connection.Entry.{
  Entry, State, on_wire, lapsed, retired, Effect, is_on_wire, deliver,
}
use smb1client_rs.Connection.Entry.Delivery.{notices, deliver-notices}
use smb1client_rs.Connection.Table.{RequestTable, next_expiry, fail_all, lose}

-- What the rows' requests are to hear of an error.
abbrev pub all_notices : Error → List (ℕ × Entry) → List Effect
all_notices error [] = []
all_notices error ((mid, e) ∷ rest) =
    notices e.state e.outcome (err error) ++ all_notices error rest

notices-row :
    (s : State) (outcome : Option ℕ) (result : Result Error Reply) (told_of more : List Effect)
    → told_of ≡ notices s outcome result
    → (if is_on_wire s then told_of ++ more else more) ≡ notices s outcome result ++ more
notices-row (on_wire reply silence_at overall_at) outcome result told_of more h =
    ap (λ effects. effects ++ more) h
notices-row (lapsed give_up_at) outcome result told_of more h = refl
notices-row retired outcome result told_of more h = refl

lose-all_notices : (rows : List (ℕ × Entry)) → lose rows ≡ all_notices lost rows
unfolding lose
lose-all_notices [] = refl
lose-all_notices ((mid, e) ∷ rest) =
    notices-row e.state e.outcome (err lost) (deliver e (err lost)).1 (lose rest)
      (deliver-notices e (err lost))
    ∙ ap (λ more. notices e.state e.outcome (err lost) ++ more) (lose-all_notices rest)

-- The loss of the connection empties the table and its expiry index, counts nothing any more, and
-- tells the outcome and the caller of each request that is on the wire, each once, that the
-- connection is lost, and nobody else.
pub fail_all_lem :
    (t : RequestTable)
    → ((fail_all t).0.entries ≡ [])
      × (next_expiry (fail_all t).0 ≡ none)
      × ((fail_all t).0.charging ≡ 0)
      × ((fail_all t).1 ≡ all_notices lost t.entries)
unfolding fail_all next_expiry
fail_all_lem t = (refl, refl, refl, lose-all_notices t.entries)
