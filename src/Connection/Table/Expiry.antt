-- ===== src/Connection/Table/Expiry.antt =====
-- `expire`: the loop ends, no `expect` of it fails, and nothing that is due is left.
use smb1client_rs.Base.{
  ℕ, zero, suc, ◌+◌, ◌≤◌, ◌<◌, ◌≡◌, refl, ◌∙◌, true, Option, none, some, List, [], ◌∷◌, arith,
  Result, ok, err, length, Option-cases, inl, inr, ◌⊎◌,
}
use smb1client_rs.Base.Dict.{lookup, has, IsOrdered, first_least}
use smb1client_rs.Connection.Error.{retirement_budget}
use smb1client_rs.Connection.Table.{
  RequestTable, Fault, failed, Outcome, retirement_limit, fire, expire, expire_loop, and_then, due,
}
use smb1client_rs.Connection.Table.Valid.{IsValid, falls, deadline}
use smb1client_rs.Connection.Table.Fire.{IsSound, round_steps, fire-IsSound}

pub loop_rest :
    (fuel : ℕ) (t : RequestTable) (now : ℕ)
    → due t.expiry now ≡ none
    → expire_loop (suc fuel) t now ≡ (t, ok tt, [])
unfolding expire_loop
loop_rest fuel t now q = rw (expire_loop, q) refl

pub loop_round :
    (fuel : ℕ) (t : RequestTable) (now mid : ℕ) (rest : List (ℕ × ℕ))
    → due t.expiry now ≡ some (mid, rest)
    → expire_loop (suc fuel) t now
      ≡ and_then (fire (record t { expiry = rest }) mid now) (λ t'. expire_loop fuel t' now)
unfolding expire_loop
loop_round fuel t now mid rest q = rw (expire_loop, q) refl

pub due-some :
    (s : List (ℕ × ℕ)) (now mid : ℕ) (rest : List (ℕ × ℕ))
    → due s now ≡ some (mid, rest)
    → (at : ℕ) × (s ≡ (at, mid) ∷ rest)
unfolding due
due-some [] now mid rest h = ground (arith, h)
due-some ((at, m) ∷ s) now mid rest h = (at, ground (arith, h))

due-none :
    (s : List (ℕ × ℕ)) (now : ℕ)
    → IsOrdered s
    → due s now ≡ none
    → (at mid : ℕ) → has at mid s ≡ true
    → now < at
unfolding due has
due-none [] now o h at mid m = ground (arith, m)
due-none ((a, k) ∷ s) now o h at mid m = ground (arith, first_least a k at mid s o m)

-- `now` is before the deadline, if there is one.
abbrev IsAhead : ℕ → Option ℕ → Type 0
IsAhead now none = Unit {0}
IsAhead now (some at) = now < at

-- What `expire` ends in.
pub record IsExpired (now : ℕ) (t : RequestTable) (r : Result Fault (Unit {0})) : Type 0 where
  pub valid : IsValid t
  pub outcome_eq :
      ((r ≡ ok tt) × ((mid : ℕ) → IsAhead now (deadline (lookup mid t.entries))))
      ⊎ ((r ≡ err (failed (retirement_budget t.retired_count)))
          × (retirement_limit ≤ t.retired_count))

IsAhead-falls : (now : ℕ) (d : Option ℕ) → ((at : ℕ) → falls at d ≡ true → now < at) → IsAhead now d
IsAhead-falls now none h = tt
IsAhead-falls now (some at) h = h at (ground arith)

-- The first deadline is the least.
none_due :
    (t : RequestTable) (now : ℕ)
    → IsValid t
    → ((at mid : ℕ) → has at mid t.expiry ≡ true → now < at)
    → IsExpired now t (ok tt)
none_due t now v h = record {
  valid = v;
  outcome_eq = inl (refl, λ mid. IsAhead-falls now _ (λ at f. h at mid (v.scheduled at mid ∙ f)));
}

-- The loop from what a round leaves.
go_on :
    (now : ℕ) (next : RequestTable → Outcome) (o : Outcome)
    → IsSound o.0 o.1
    → (IsValid o.0 → IsExpired now (next o.0).0 (next o.0).1)
    → let (t', r, effects) = and_then o next in IsExpired now t' r
go_on now next (t, ok tt, effects) s h = h s.valid
go_on now next (t, err e, effects) s h = record {
  valid = s.valid;
  outcome_eq = elim s.outcome_eq [ inl k ↦ ground (arith, k) | inr k ↦ inr k ];
}

expire_loop-IsExpired :
    (fuel : ℕ) (t : RequestTable) (now : ℕ)
    → IsValid t
    → round_steps t < fuel
    → let (t', r, effects) = expire_loop fuel t now in IsExpired now t' r
expire_loop-IsExpired zero t now v f = absurd (omega (arith, f))
expire_loop-IsExpired (suc fuel) t now v f = elim (Option-cases (due t.expiry now)) [
  | inl later ↦
      rw (loop_rest fuel t now later) (none_due t now v (due-none t.expiry now v.ordered later))
  | inr ((mid, rest), q) ↦
      let (at, listed) = due-some t.expiry now mid rest q in
      let (sound, less) = fire-IsSound t at mid now rest v listed in
      rw (loop_round fuel t now mid rest q) (
        go_on now _ (fire (record t { expiry = rest }) mid now) sound
          (λ v'. expire_loop-IsExpired fuel _ now v' (omega (arith, less, f))))
]

-- On a valid table, `expire` ends, whatever the time is, without a failed `expect`: the table is valid
-- again, and either the deadline of every row is still to come, or the retirement budget is spent
-- and the error says how many ids are retired.
pub expire-IsExpired :
    (t : RequestTable) (now : ℕ)
    → IsValid t
    → let (t', r, effects) = expire t now in IsExpired now t' r
unfolding expire round_steps
expire-IsExpired t now v =
    expire_loop-IsExpired (length t.expiry + t.charging + 1) t now v (omega arith)
