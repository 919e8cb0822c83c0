-- ===== src/Connection/Table/Steps.antt =====
-- `retire` and `accept`: an arrival leaves a valid table valid.
use smb1client_rs.Base.{
  Result, ok, err, [], ℕ, ◌+◌, ◌-◌, ◌≤◌, ◌≡◌, refl, sym, ◌∙◌, true, false, ◌==◌, none, some, List,
  arith, Bool-cases, Option-cases, inl, inr,
}
use smb1client_rs.Base.Dict.{
  lookup, insert, weight, total-remove, insert-insert, remove-insert, lookup-insert,
}
use smb1client_rs.Wire.Binrw.{Binrw}
use smb1client_rs.Wire.Message.{Message}
use smb1client_rs.Connection.Entry
use smb1client_rs.Connection.Entry.{
  Entry, retired, Step, goes_on, completed, corrupted, expect_failed, expires_at, charges,
  is_retired, Effect,
}
use smb1client_rs.Connection.Entry.Delivery.{
  SameKind, accept-SameKind, IsStep, Tells-IsStep, accept-Tells,
}
use smb1client_rs.Connection.Table.{
  RequestTable, Fault, failed, last_mid, retire, settle, update_row, accept,
}
use smb1client_rs.Connection.Table.Valid.{IsValid, charge, moved}
use smb1client_rs.Connection.Table.Rows.{
  with_row, with_row-IsValid, without_row, without_row-IsValid,
}
use smb1client_rs.Connection.Error.{unroutable}
use mathlib.Core.Path.{subst}
use native.Mathlib.Decide.{dec_le}

-- What an arrival makes of the table, for each step; after the panic nothing is settled.
unfoldable pub settled : Step → RequestTable → ℕ → Entry → Entry → RequestTable
settled goes_on t mid e e' = with_row t mid e' t.charging t.retired_count
settled completed t mid e e' = without_row t mid (t.charging - charge e)
settled corrupted t mid e e' =
    with_row t mid (record e' { state = retired; assembly = none }) (t.charging - charge e)
      (t.retired_count + 1)
settled expect_failed t mid e e' = t

settled-IsValid :
    (s : Step) (t : RequestTable) (mid : ℕ) (e e' : Entry)
    → IsValid t
    → mid ≤ last_mid
    → lookup mid t.entries ≡ some e
    → is_retired e.state ≡ false
    → SameKind e e'
    → charge e ≤ t.charging
    → IsValid (settled s t mid e e')
unfolding settled
settled-IsValid goes_on t mid e e' v m found live k l =
    with_row-IsValid t mid e' t.charging t.retired_count v m (rw (found, k.charges_eq) refl)
      (rw (found, k.retired_eq) refl)
settled-IsValid completed t mid e e' v m found live k l =
    without_row-IsValid t mid _ v (rw found (omega arith)) (rw (found, live) refl)
settled-IsValid corrupted t mid e e' v m found live k l =
    with_row-IsValid t mid _ _ _ v m (rw found (omega arith)) (rw (found, live) (omega arith))
settled-IsValid expect_failed t mid e e' v m found live k l = v

pub retire_found :
    (t : RequestTable) (mid : ℕ) (e : Entry)
    → lookup mid t.entries ≡ some e
    → (retire t mid).0 ≡ record t {
      entries = insert mid (record e { state = retired; assembly = none }) t.entries;
      retired_count = t.retired_count + 1;
    }
unfolding retire
retire_found t mid e found = rw (retire, found) refl

pub found_after :
    (mid : ℕ) (e : Entry) (entries : List (ℕ × Entry)) → lookup mid (insert mid e entries) ≡ some e
found_after mid e entries = ground (arith, lookup-insert mid mid e entries)

pub settle-settled :
    (s : Step) (t : RequestTable) (mid : ℕ) (e e' : Entry)
    → lookup mid t.entries ≡ some e
    → IsStep s
    → (settle s (update_row t mid e e' s) mid).0 ≡ settled s t mid e e'
unfolding settle settled update_row retire with_row without_row moved
settle-settled goes_on t mid e e' found h = rw found (ground arith)
settle-settled completed t mid e e' found h =
    rw (found, remove-insert mid e e' t.entries found) (ground arith)
settle-settled corrupted t mid e e' found h =
    retire_found (update_row t mid e e' corrupted) mid e' (found_after mid e' t.entries)
    ∙ rw (found, insert-insert mid e' (record e' { state = retired; assembly = none }) t.entries)
        (ground arith)
settle-settled expect_failed t mid e e' found h = absurd h

-- What an arrival that the row `e` takes makes of the table, and what `accept` then answers.
accept_live :
    (binrw : Binrw) (t : RequestTable) (m : Message) (now : ℕ) (e : Entry)
    → lookup m.header.mid t.entries ≡ some e
    → is_retired e.state ≡ false
    → (e.command == m.header.command) ≡ true
    → (let (t', result, effects) = accept binrw t m now in (t', result)) ≡ (
        let (e', step, effects) = Entry.accept binrw e m now t.timeouts.per_request in
        settle step (update_row t m.header.mid e e' step) m.header.mid)
unfolding accept settle
accept_live binrw t m now e found live same = rw (accept, found, live, same) refl

accept_unknown :
    (binrw : Binrw) (t : RequestTable) (m : Message) (now : ℕ)
    → lookup m.header.mid t.entries ≡ none
    → accept binrw t m now ≡ (t, err (failed (unroutable m.header.mid m.header.command)), [])
unfolding accept
accept_unknown binrw t m now found = rw (accept, found) refl

accept_retired :
    (binrw : Binrw) (t : RequestTable) (m : Message) (now : ℕ) (e : Entry)
    → lookup m.header.mid t.entries ≡ some e
    → is_retired e.state ≡ true
    → accept binrw t m now ≡ (t, ok tt, [])
unfolding accept
accept_retired binrw t m now e found gone = rw (accept, found, gone) refl

accept_stranger :
    (binrw : Binrw) (t : RequestTable) (m : Message) (now : ℕ) (e : Entry)
    → lookup m.header.mid t.entries ≡ some e
    → is_retired e.state ≡ false
    → (e.command == m.header.command) ≡ false
    → accept binrw t m now ≡ (t, err (failed (unroutable m.header.mid m.header.command)), [])
unfolding accept
accept_stranger binrw t m now e found live other = rw (accept, found, live, other) refl

-- A property of the table and the answer that `accept` leaves: it holds if it does where nothing
-- changes, with the answers that `accept` then gives, and where a live row is settled.
pub accept_elim :
    (P : RequestTable → Result Fault (Unit {0}) → Type 0) (binrw : Binrw) (t : RequestTable)
    (m : Message) (now : ℕ)
    → P t (ok tt)
    → P t (err (failed (unroutable m.header.mid m.header.command)))
    → ((s : Step) (e e' : Entry)
        → lookup m.header.mid t.entries ≡ some e
        → is_retired e.state ≡ false
        → SameKind e e'
        → IsStep s
        → let (t', result) = settle s (update_row t m.header.mid e e' s) m.header.mid in
          P t' result)
    → let (t', result, effects) = accept binrw t m now in P t' result
accept_elim P binrw t m now kept refused live_case =
    elim (Option-cases (lookup m.header.mid t.entries)) [
      | inl missing ↦ subst (λ x. P x.0 x.1) (sym (accept_unknown binrw t m now missing)) refused
      | inr (e, found) ↦ elim (Bool-cases (is_retired e.state)) [
        | inl gone ↦ subst (λ x. P x.0 x.1) (sym (accept_retired binrw t m now e found gone)) kept
        | inr live ↦ elim (Bool-cases (e.command == m.header.command)) [
          | inl same ↦
              subst (λ x. P x.0 x.1) (sym (accept_live binrw t m now e found live same))
                (live_case _ e _ found live (accept-SameKind binrw e m now t.timeouts.per_request) (
                  Tells-IsStep e (Entry.accept binrw e m now t.timeouts.per_request)
                    (accept-Tells binrw e m now t.timeouts.per_request)))
          | inr other ↦
              subst (λ x. P x.0 x.1) (sym (accept_stranger binrw t m now e found live other))
                refused
        ]
      ]
    ]

pub found-issued :
    (t : RequestTable) (mid : ℕ) (e : Entry)
    → IsValid t
    → lookup mid t.entries ≡ some e
    → mid ≤ last_mid
found-issued t mid e v found = elim (dec_le mid last_mid) [
  | yes le ↦ le
  | no gt ↦ cc (found, v.issued mid (omega arith))
]

pub found-charged :
    (t : RequestTable) (mid : ℕ) (e : Entry)
    → IsValid t
    → lookup mid t.entries ≡ some e
    → charge e ≤ t.charging
found-charged t mid e v found =
    let counted : charge e ≡ weight charge (lookup mid t.entries) = rw found refl in
    omega (arith, counted, total-remove charge mid t.entries, v.charged)

-- Whatever message arrives, and whatever its decoding gives, `accept` leaves a valid table valid.
pub table_accept-IsValid :
    (binrw : Binrw) (t : RequestTable) (m : Message) (now : ℕ)
    → IsValid t
    → IsValid (accept binrw t m now).0
table_accept-IsValid binrw t m now v =
    accept_elim (λ t' result. IsValid t') binrw t m now v v
      (λ s e e' found live k h. subst IsValid (sym (settle-settled s t m.header.mid e e' found h)) (
        settled-IsValid s t m.header.mid e e' v (found-issued t m.header.mid e v found) found live k
          (found-charged t m.header.mid e v found)))
