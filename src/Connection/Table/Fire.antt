-- ===== src/Connection/Table/Fire.antt =====
-- A round of `expire`: it keeps the table valid, and takes a step that the loop can count.
use smb1client_rs.Base.{
  ℕ, suc, ◌+◌, ◌-◌, ◌*◌, ◌≤◌, ◌<◌, ◌≡◌, refl, ◌∙◌, ap, true, false, leb, if◌then◌else◌, Option,
  none, some, List, [], ◌∷◌, arith, Result, ok, err, length, Bool-cases, inl, inr, ◌⊎◌,
}
use smb1client_rs.Base.Dict.{lookup, insert, add}
use smb1client_rs.Connection.Entry.{Entry, State, on_wire, lapsed, retired, is_retired}
use smb1client_rs.Connection.Error.{retirement_budget}
use smb1client_rs.Connection.Table.{
  RequestTable, Fault, failed, retirement_limit, give_up_deadlines, fire, fire_in, lapse, retire,
}
use smb1client_rs.Connection.Table.Valid.{IsValid, charge, memory, falls, deadline}
use smb1client_rs.Connection.Table.Steps.{found-issued, found-charged}
use smb1client_rs.Connection.Table.Due.{due-scheduled, rescheduled, rescheduled-IsValid}

-- What a loop's round, or the loop, may end in: a valid table, and no error but the retirement
-- budget's, which is spent.
pub record IsSound (t : RequestTable) (r : Result Fault (Unit {0})) : Type 0 where
  pub valid : IsValid t
  pub outcome_eq :
      (r ≡ ok tt)
      ⊎ ((r ≡ err (failed (retirement_budget t.retired_count)))
          × (retirement_limit ≤ t.retired_count))

unfoldable pub round_steps : RequestTable → ℕ
round_steps t = length t.expiry + t.charging

length-add : (p : ℕ × ℕ) (s : List (ℕ × ℕ)) → length (add p s) ≤ length s + 1
unfolding add
length-add p [] = omega arith
length-add (a, m) ((b, n) ∷ s) = ground (arith, length-add (a, m) s)

pub State-cases :
    (s : State)
    → ((r : Option ℕ) × (a : ℕ) × (b : ℕ) × (s ≡ on_wire r a b))
      ⊎ ((g : ℕ) × (s ≡ lapsed g))
      ⊎ (s ≡ retired)
State-cases (on_wire r a b) = inl (r, a, b, refl)
State-cases (lapsed g) = inr (inl (g, refl))
State-cases retired = inr (inr refl)

fire_found :
    (t : RequestTable) (mid now : ℕ) (e : Entry)
    → lookup mid t.entries ≡ some e
    → fire t mid now ≡ fire_in e.state e t mid now
unfolding fire
fire_found t mid now e found = rw (fire, found) refl

pub fire_on_wire :
    (t : RequestTable) (mid now : ℕ) (rest : List (ℕ × ℕ)) (e : Entry) (r : Option ℕ) (a b : ℕ)
    → lookup mid t.entries ≡ some e
    → e.state ≡ on_wire r a b
    → let l = lapse e (now + t.timeouts.overall * give_up_deadlines) in
      fire (record t { expiry = rest }) mid now
      ≡ (rescheduled t mid rest l.0 (t.charging - 1) t.retired_count, ok tt, l.1)
unfolding fire_in rescheduled lapse
fire_on_wire t mid now rest e r a b found on =
    fire_found (record t { expiry = rest }) mid now e found
    ∙ ap (λ s. fire_in s e (record t { expiry = rest }) mid now) on

-- What `retire` answers.
abbrev pub budgeted : ℕ → Result Fault (Unit {0})
budgeted n = if leb retirement_limit n then err (failed (retirement_budget n)) else ok tt

pub retire_lem :
    (t : RequestTable) (mid : ℕ) (e : Entry)
    → lookup mid t.entries ≡ some e
    → retire t mid ≡ (
      record t {
        entries = insert mid (record e { state = retired; assembly = none }) t.entries;
        retired_count = t.retired_count + 1;
      },
      budgeted (t.retired_count + 1),
    )
unfolding retire
retire_lem t mid e found = rw (retire, found) refl

budgeted-cases :
    (n : ℕ)
    → (budgeted n ≡ ok tt)
      ⊎ ((budgeted n ≡ err (failed (retirement_budget n))) × (retirement_limit ≤ n))
budgeted-cases n = elim (Bool-cases (leb retirement_limit n)) [
  | inl h ↦ inr (rw h refl, ground (arith, h))
  | inr h ↦ inl (rw h refl)
]

pub fire_lapsed :
    (t : RequestTable) (mid now : ℕ) (rest : List (ℕ × ℕ)) (e : Entry) (g : ℕ)
    → lookup mid t.entries ≡ some e
    → e.state ≡ lapsed g
    → fire (record t { expiry = rest }) mid now ≡ (
      rescheduled t mid rest
          (record e { state = retired; assembly = none })
          t.charging
          (t.retired_count + 1),
      budgeted (t.retired_count + 1),
      [],
    )
unfolding fire_in rescheduled
fire_lapsed t mid now rest e g found on =
    fire_found (record t { expiry = rest }) mid now e found
    ∙ ap (λ s. fire_in s e (record t { expiry = rest }) mid now) on
    ∙ ap (λ x. (x.0, x.1, [])) (retire_lem (record t { expiry = rest }) mid e found)

pub due-found :
    (t : RequestTable) (at mid : ℕ) (rest : List (ℕ × ℕ))
    → IsValid t
    → t.expiry ≡ (at, mid) ∷ rest
    → (e : Entry) × (lookup mid t.entries ≡ some e) × (is_retired e.state ≡ false)
due-found t at mid rest v q = held (lookup mid t.entries) (due-scheduled t at mid rest v q)
  where
    held :
        (o : Option Entry)
        → falls at (deadline o) ≡ true
        → (e : Entry) × (o ≡ some e) × (is_retired e.state ≡ false)
    held none h = ground arith
    held (some e) h = (e, refl, ground arith)

lapse-IsSound :
    (t : RequestTable) (at mid now : ℕ) (rest : List (ℕ × ℕ)) (e : Entry) (r : Option ℕ) (a b : ℕ)
    → IsValid t
    → t.expiry ≡ (at, mid) ∷ rest
    → lookup mid t.entries ≡ some e
    → e.state ≡ on_wire r a b
    → let (t', r, effects) = fire (record t { expiry = rest }) mid now in
      IsSound t' r × (round_steps t' < round_steps t)
unfolding lapse round_steps rescheduled
lapse-IsSound t at mid now rest e r a b v q found on =
    let same = fire_on_wire t mid now rest e r a b found on in
    let one : charge e ≡ 1 = rw on refl in
    let off : memory e ≡ 0 = rw on refl in
    let some_left = found-charged t mid e v found in
    let listed : length t.expiry ≡ suc (length rest) = ap length q in
    let added = length-add (now + t.timeouts.overall * give_up_deadlines, mid) rest in
    rw same (
      record {
        valid =
            rescheduled-IsValid t at mid rest _ _ _ v q (found-issued t mid e v found)
              (rw (found, one) (omega arith)) (rw (found, off) (omega arith));
        outcome_eq = inl refl;
      },
      omega (arith, one, some_left, listed, added),
    )

retire-IsSound :
    (t : RequestTable) (at mid now : ℕ) (rest : List (ℕ × ℕ)) (e : Entry) (g : ℕ)
    → IsValid t
    → t.expiry ≡ (at, mid) ∷ rest
    → lookup mid t.entries ≡ some e
    → e.state ≡ lapsed g
    → let (t', r, effects) = fire (record t { expiry = rest }) mid now in
      IsSound t' r × (round_steps t' < round_steps t)
unfolding round_steps rescheduled
retire-IsSound t at mid now rest e g v q found on =
    let none_charged : charge e ≡ 0 = rw on refl in
    let off : memory e ≡ 0 = rw on refl in
    let listed : length t.expiry ≡ suc (length rest) = ap length q in
    rw (fire_lapsed t mid now rest e g found on) (
      record {
        valid =
            rescheduled-IsValid t at mid rest _ _ _ v q (found-issued t mid e v found)
              (rw (found, none_charged) (omega arith)) (rw (found, off) (omega arith));
        outcome_eq = budgeted-cases (t.retired_count + 1);
      },
      omega (arith, listed),
    )

pub fire-IsSound :
    (t : RequestTable) (at mid now : ℕ) (rest : List (ℕ × ℕ))
    → IsValid t
    → t.expiry ≡ (at, mid) ∷ rest
    → let (t', r, effects) = fire (record t { expiry = rest }) mid now in
      IsSound t' r × (round_steps t' < round_steps t)
fire-IsSound t at mid now rest v q =
    let (e, found, live) = due-found t at mid rest v q in
    elim (State-cases e.state) [
      | inl (r, a, b, on) ↦ lapse-IsSound t at mid now rest e r a b v q found on
      | inr (inl (g, on)) ↦ retire-IsSound t at mid now rest e g v q found on
      | inr (inr on) ↦ cc (ap is_retired on, live)
    ]
