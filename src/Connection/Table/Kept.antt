-- ===== src/Connection/Table/Kept.antt =====
-- What every arrival and every expiry keep: the limit, the ids that are free, and no more requests on
-- the wire; and that neither meets a panic of the source.
use smb1client_rs.Base.{
  ℕ, zero, suc, ◌+◌, ◌≤◌, ◌≡◌, refl, sym, ◌∙◌, ap, leb, none, some, List, ◌∷◌, arith, Result, ok,
  err, length, Bool-cases, Option-cases, inl, inr,
}
use smb1client_rs.Base.Dict.{lookup, insert, lookup-insert, lookup-remove}
use smb1client_rs.Wire.Binrw.{Binrw}
use smb1client_rs.Wire.Message.{Message}
use smb1client_rs.Connection.Entry.{
  Entry, is_retired, Step, goes_on, completed, corrupted, expect_failed,
}
use smb1client_rs.Connection.Entry.Delivery.{IsStep}
use smb1client_rs.Connection.Table.{
  RequestTable, Fault, failed, panicked, out_of_fuel, Outcome, retirement_limit, settle, update_row,
  accept, fire, due, and_then, expire_loop, expire,
}
use smb1client_rs.Connection.Table.Valid.{IsValid}
use smb1client_rs.Connection.Table.Rows.{with_row, without_row}
use smb1client_rs.Connection.Table.Steps.{
  accept_elim, settled, settle-settled, found_after, table_accept-IsValid,
}
use smb1client_rs.Connection.Table.Due.{rescheduled}
use smb1client_rs.Connection.Table.Fire.{
  fire-IsSound, fire_on_wire, fire_lapsed, due-found, State-cases, retire_lem, budgeted,
}
use mathlib.Core.Path.{subst}
use smb1client_rs.Connection.Table.Expiry.{
  IsExpired, expire-IsExpired, loop_rest, loop_round, due-some,
}

-- A fault that the code can return: an error, never a panic.
abbrev pub IsReported : Result Fault (Unit {0}) → Type 0
IsReported (ok tt) = Unit {0}
IsReported (err (failed e)) = Unit {0}
IsReported (err panicked) = ⊥
IsReported (err out_of_fuel) = ⊥

pub record Shrinks (t t' : RequestTable) : Type 0 where
  pub limit_eq : t'.limit ≡ t.limit
  pub timeouts_eq : t'.timeouts ≡ t.timeouts
  pub charging_le : t'.charging ≤ t.charging
  pub free : (mid : ℕ) → lookup mid t.entries ≡ none → lookup mid t'.entries ≡ none

pub Shrinks-refl : (t : RequestTable) → Shrinks t t
Shrinks-refl t = record {
  limit_eq = refl;
  timeouts_eq = refl;
  charging_le = omega arith;
  free = λ mid h. h;
}

Shrinks-trans : {t t' t'' : RequestTable} → Shrinks t t' → Shrinks t' t'' → Shrinks t t''
Shrinks-trans a b = record {
  limit_eq = b.limit_eq ∙ a.limit_eq;
  timeouts_eq = b.timeouts_eq ∙ a.timeouts_eq;
  charging_le = omega (arith, a.charging_le, b.charging_le);
  free = λ mid h. b.free mid (a.free mid h);
}

-- A row that is there may change.
insert-free :
    (mid : ℕ) (e e' : Entry) (entries : List (ℕ × Entry))
    → lookup mid entries ≡ some e
    → (k : ℕ) → lookup k entries ≡ none
    → lookup k (insert mid e' entries) ≡ none
insert-free mid e e' entries found k h = ground (arith, lookup-insert mid k e' entries)

settled-Shrinks :
    (s : Step) (t : RequestTable) (mid : ℕ) (e e' : Entry)
    → IsValid t
    → lookup mid t.entries ≡ some e
    → Shrinks t (settled s t mid e e')
unfolding settled with_row without_row
settled-Shrinks goes_on t mid e e' v found = record {
  limit_eq = refl;
  timeouts_eq = refl;
  charging_le = omega arith;
  free = insert-free mid e e' t.entries found;
}
settled-Shrinks completed t mid e e' v found = record {
  limit_eq = refl;
  timeouts_eq = refl;
  charging_le = omega arith;
  free = λ k h. ground (arith, lookup-remove mid k t.entries v.unique);
}
settled-Shrinks corrupted t mid e e' v found = record {
  limit_eq = refl;
  timeouts_eq = refl;
  charging_le = omega arith;
  free = insert-free mid e _ t.entries found;
}
settled-Shrinks expect_failed t mid e e' v found = Shrinks-refl t

budgeted-IsReported : (n : ℕ) → IsReported (budgeted n)
budgeted-IsReported n = elim (Bool-cases (leb retirement_limit n)) [
  | inl h ↦ rw h tt
  | inr h ↦ rw h tt
]

settle-IsReported :
    (s : Step) (t : RequestTable) (mid : ℕ) (e e' : Entry)
    → IsStep s
    → IsReported (settle s (update_row t mid e e' s) mid).1
unfolding settle update_row
settle-IsReported goes_on t mid e e' h = tt
settle-IsReported completed t mid e e' h = tt
settle-IsReported corrupted t mid e e' h =
    subst (λ x. IsReported x.1)
      (sym (retire_lem (update_row t mid e e' corrupted) mid e' (found_after mid e' t.entries)))
      (budgeted-IsReported _)
settle-IsReported expect_failed t mid e e' h = absurd h

-- What an operation on a valid table leaves.
pub record Keeps (t t' : RequestTable) (r : Result Fault (Unit {0})) : Type 0 where
  pub valid : IsValid t'
  pub shrinks : Shrinks t t'
  pub reported : IsReported r

pub accept-Keeps :
    (binrw : Binrw) (t : RequestTable) (m : Message) (now : ℕ)
    → IsValid t
    → let (t', r, effects) = accept binrw t m now in Keeps t t' r
accept-Keeps binrw t m now v = record {
  valid = table_accept-IsValid binrw t m now v;
  shrinks =
      accept_elim (λ t' r. Shrinks t t') binrw t m now (Shrinks-refl t) (Shrinks-refl t)
        (λ s e e' found live k h.
          subst (Shrinks t) (sym (settle-settled s t m.header.mid e e' found h))
            (settled-Shrinks s t m.header.mid e e' v found));
  reported =
      accept_elim (λ t' r. IsReported r) binrw t m now tt tt
        (λ s e e' found live k h. settle-IsReported s t m.header.mid e e' h);
}

rescheduled-Shrinks :
    (t : RequestTable) (mid : ℕ) (rest : List (ℕ × ℕ)) (e e' : Entry) (c r : ℕ)
    → lookup mid t.entries ≡ some e
    → c ≤ t.charging
    → Shrinks t (rescheduled t mid rest e' c r)
unfolding rescheduled
rescheduled-Shrinks t mid rest e e' c r found h = record {
  limit_eq = refl;
  timeouts_eq = refl;
  charging_le = h;
  free = insert-free mid e e' t.entries found;
}

fire-Shrinks :
    (t : RequestTable) (at mid now : ℕ) (rest : List (ℕ × ℕ))
    → IsValid t
    → t.expiry ≡ (at, mid) ∷ rest
    → Shrinks t (fire (record t { expiry = rest }) mid now).0
fire-Shrinks t at mid now rest v q =
    let (e, found, live) = due-found t at mid rest v q in
    elim (State-cases e.state) [
      | inl (r, a, b, on) ↦
          rw (fire_on_wire t mid now rest e r a b found on)
            (rescheduled-Shrinks t mid rest e _ _ _ found (omega arith))
      | inr (inl (g, on)) ↦
          rw (fire_lapsed t mid now rest e g found on)
            (rescheduled-Shrinks t mid rest e _ _ _ found (omega arith))
      | inr (inr on) ↦ cc (ap is_retired on, live)
    ]

go_on-Shrinks :
    (t : RequestTable) (next : RequestTable → Outcome) (o : Outcome)
    → Shrinks t o.0
    → Shrinks o.0 (next o.0).0
    → Shrinks t (and_then o next).0
go_on-Shrinks t next (t', ok tt, effects) s h = Shrinks-trans s h
go_on-Shrinks t next (t', err e, effects) s h = s

expire_loop-Shrinks :
    (fuel : ℕ) (t : RequestTable) (now : ℕ) → IsValid t → Shrinks t (expire_loop fuel t now).0
unfolding expire_loop
expire_loop-Shrinks zero t now v = Shrinks-refl t
expire_loop-Shrinks (suc fuel) t now v = elim (Option-cases (due t.expiry now)) [
  | inl later ↦ rw (loop_rest fuel t now later) (Shrinks-refl t)
  | inr ((mid, rest), q) ↦
      let (at, listed) = due-some t.expiry now mid rest q in
      let (sound, less) = fire-IsSound t at mid now rest v listed in
      rw (loop_round fuel t now mid rest q) (
        go_on-Shrinks t _ (fire (record t { expiry = rest }) mid now)
          (fire-Shrinks t at mid now rest v listed) (expire_loop-Shrinks fuel _ now sound.valid))
]

expired-IsReported :
    (now : ℕ) (t : RequestTable) (r : Result Fault (Unit {0})) → IsExpired now t r → IsReported r
expired-IsReported now t r x = elim x.outcome_eq [
  | inl (e, ahead) ↦ subst IsReported (sym e) tt
  | inr (e, spent) ↦ subst IsReported (sym e) tt
]

pub expire-Keeps :
    (t : RequestTable) (now : ℕ) → IsValid t → let (t', r, effects) = expire t now in Keeps t t' r
expire-Keeps t now v = record {
  valid = (expire-IsExpired t now v).valid;
  shrinks = expire-Shrinks;
  reported = expired-IsReported now _ _ (expire-IsExpired t now v);
}
  where
    expire-Shrinks : Shrinks t (expire t now).0
    expire-Shrinks = unfold expire in expire_loop-Shrinks (length t.expiry + t.charging + 1) t now v
