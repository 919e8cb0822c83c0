-- ===== src/Connection/Coverage/Cover.antt =====
-- `Coverage::cover`: what it answers, and which bytes the coverage then stands for.
use smb1client_rs.Base.{
  ℕ, zero, suc, ◌+◌, ◌≤◌, ◌<◌, ◌≡◌, ◌≢◌, ◌↔◌, refl, ◌⊎◌, inl, inr, true, false, arith, ◌||◌,
  Bool-cases,
}
use smb1client_rs.Connection.Coverage.{Coverage, holds, cover}
use smb1client_rs.Connection.Coverage.Normal.{IsNormal, placed, is_clear, placed-IsNormal}
use smb1client_rs.Connection.Coverage.Bytes.{
  within, holds-placed, is_clear-holds, is_clear_of_holds,
}

cover_empty : (c : Coverage) (s : ℕ) → cover c s 0 ≡ (c, true)
unfolding cover
cover_empty c s = refl

cover_clear :
    (c : Coverage) (s l : ℕ)
    → l ≢ 0
    → is_clear s (s + l) c.ranges ≡ true
    → cover c s l ≡ (record { ranges = placed s (s + l) c.ranges }, true)
unfolding cover is_clear placed
cover_clear c s l ne h = ground arith

cover_taken :
    (c : Coverage) (s l : ℕ)
    → l ≢ 0
    → is_clear s (s + l) c.ranges ≡ false
    → cover c s l ≡ (c, false)
unfolding cover is_clear
cover_taken c s l ne h = ground arith

pub cover-IsNormal :
    (c : Coverage) (s l : ℕ) → IsNormal 0 c.ranges → IsNormal 0 (cover c s l).0.ranges
cover-IsNormal c s zero n = rw (cover_empty c s) n
cover-IsNormal c s (suc l) n = elim (Bool-cases (is_clear s (s + suc l) c.ranges)) [
  | inl h ↦
      rw (cover_clear c s (suc l) (omega arith) h)
        (placed-IsNormal 0 s (s + suc l) c.ranges n (omega arith) (omega arith) h)
  | inr h ↦ rw (cover_taken c s (suc l) (omega arith) h) n
]

pub holds-cover :
    (c : Coverage) (s l : ℕ)
    → IsNormal 0 c.ranges
    → (cover c s l).1 ≡ true
    → (i : ℕ) → holds (cover c s l).0.ranges i ≡ (holds c.ranges i || within s (s + l) i)
holds-cover c s zero n h i = rw (cover_empty c s) (ground arith)
holds-cover c s (suc l) n h i = elim (Bool-cases (is_clear s (s + suc l) c.ranges)) [
  | inl k ↦
      rw (cover_clear c s (suc l) (omega arith) k)
        (holds-placed 0 s (s + suc l) i c.ranges n (omega arith))
  | inr k ↦ cc (cover_taken c s (suc l) (omega arith) k)
]

cover-fresh :
    (c : Coverage) (s l : ℕ)
    → IsNormal 0 c.ranges
    → (cover c s l).1 ≡ true
    → (i : ℕ) → s ≤ i
    → i < s + l
    → holds c.ranges i ≡ false
cover-fresh c s zero n h i p q = absurd (omega arith)
cover-fresh c s (suc l) n h i p q = elim (Bool-cases (is_clear s (s + suc l) c.ranges)) [
  | inl k ↦ is_clear-holds 0 s (s + suc l) i c.ranges n k p q
  | inr k ↦ cc (cover_taken c s (suc l) (omega arith) k)
]

pub cover_of_fresh :
    (c : Coverage) (s l : ℕ)
    → IsNormal 0 c.ranges
    → ((i : ℕ) → s ≤ i → i < s + l → holds c.ranges i ≡ false)
    → (cover c s l).1 ≡ true
cover_of_fresh c s zero n h = ap1 (cover_empty c s)
  where
    ap1 : cover c s 0 ≡ (c, true) → (cover c s 0).1 ≡ true
    ap1 e = cc
cover_of_fresh c s (suc l) n h = rw (
    cover_clear c s (suc l) (omega arith)
      (is_clear_of_holds 0 s (s + suc l) c.ranges n (omega arith) h))

cover_refused : (c : Coverage) (s l : ℕ) → (cover c s l).1 ≡ false → (cover c s l).0 ≡ c
unfolding cover
cover_refused c s l h = ground arith

-- On a normal coverage, `cover` answers `true` exactly where no byte of the span was covered.
pub cover_iff :
    (c : Coverage) (s l : ℕ)
    → IsNormal 0 c.ranges
    → ((cover c s l).1 ≡ true) ↔ ((i : ℕ) → s ≤ i → i < s + l → holds c.ranges i ≡ false)
cover_iff c s l n = (cover-fresh c s l n, cover_of_fresh c s l n)

-- `cover` keeps a coverage normal. Where it answers `true`, the covered bytes are those that were
-- and those of the span; where it answers `false`, nothing has changed.
pub cover_lem :
    (c : Coverage) (s l : ℕ)
    → IsNormal 0 c.ranges
    → IsNormal 0 (cover c s l).0.ranges
      × (((cover c s l).1 ≡ true)
            × ((i : ℕ) → holds (cover c s l).0.ranges i ≡ (holds c.ranges i || within s (s + l) i))
          ⊎ ((cover c s l).1 ≡ false) × ((cover c s l).0 ≡ c))
cover_lem c s l n = (
  cover-IsNormal c s l n,
  elim (Bool-cases (cover c s l).1) [
    | inl h ↦ inl (h, holds-cover c s l n h)
    | inr h ↦ inr (h, cover_refused c s l h)
  ],
)
