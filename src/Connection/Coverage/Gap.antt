-- ===== src/Connection/Coverage/Gap.antt =====
-- `Coverage::gap`, `prefix` and `covers`, against the bytes that a coverage stands for.
use smb1client_rs.Base.{
  ℕ, suc, ◌-◌, ◌≤◌, ◌<◌, ◌≡◌, ◌↔◌, refl, true, false, ◌⊎◌, inl, inr, List, [], ◌∷◌, none, some,
  arith, ltb, Option-cases,
}
use smb1client_rs.Connection.Coverage.{
  Coverage, Range, holds, gap_from, gap, prefix_of, prefix, is_whole, covers,
}
use smb1client_rs.Connection.Coverage.Normal.{IsNormal}
use smb1client_rs.Connection.Coverage.Bytes.{holds_below}

gap_from-none :
    (at lo total i : ℕ) (rs : List Range)
    → IsNormal lo rs
    → gap_from at rs total ≡ none
    → at ≤ i
    → i < total
    → holds rs i ≡ true
unfolding gap_from holds
gap_from-none at lo total i [] n e h k = ground arith
gap_from-none at lo total i ((f, t) ∷ rs) n e h k =
    ground (arith, gap_from-none t (suc t) total i rs)

-- The bytes below a gap are covered, and those in it are not.
gap_from-below :
    (at lo total i a b : ℕ) (rs : List Range)
    → IsNormal lo rs
    → gap_from at rs total ≡ some (a, b)
    → at ≤ i
    → i < a
    → holds rs i ≡ true
unfolding gap_from holds
gap_from-below at lo total i a b [] n e h k = ground arith
gap_from-below at lo total i a b ((f, t) ∷ rs) n e h k =
    ground (arith, gap_from-below t (suc t) total i a b rs)

gap_from-bounds :
    (at lo total a b : ℕ) (rs : List Range)
    → IsNormal lo rs
    → at ≤ lo
    → at < total
    → gap_from at rs total ≡ some (a, b)
    → (at ≤ a) × (a < b) × (b ≤ total)
unfolding gap_from
gap_from-bounds at lo total a b [] n l h e = ground arith
gap_from-bounds at lo total a b ((f, t) ∷ rs) n l h e =
    ground (arith, gap_from-bounds t (suc t) total a b rs)

gap_from-inside :
    (at lo total i a b : ℕ) (rs : List Range)
    → IsNormal lo rs
    → at ≤ lo
    → at < total
    → gap_from at rs total ≡ some (a, b)
    → a ≤ i
    → i < b
    → holds rs i ≡ false
unfolding gap_from holds
gap_from-inside at lo total i a b [] n l p e h k = refl
gap_from-inside at lo total i a b ((f, t) ∷ rs) n l p e h k = ground (
  arith,
  gap_from-inside t (suc t) total i a b rs,
  gap_from-bounds t (suc t) total a b rs,
  holds_below (suc t) i rs,
)

-- A gap goes on to the next range, or to the total.
gap_from-longest :
    (at lo total a b : ℕ) (rs : List Range)
    → IsNormal lo rs
    → gap_from at rs total ≡ some (a, b)
    → (b ≡ total) ⊎ (holds rs b ≡ true)
unfolding gap_from holds
gap_from-longest at lo total a b [] n e = ground arith
gap_from-longest at lo total a b ((f, t) ∷ rs) n e =
    ground (arith, gap_from-longest t (suc t) total a b rs)

-- What a gap says of the bytes `0 .. total`: the first of them that are not covered.
pub record IsFirstGap (c : Coverage) (total a b : ℕ) : Type 0 where
  pub filled : a < b
  pub bounded : b ≤ total
  pub before : (i : ℕ) → i < a → holds c.ranges i ≡ true
  pub inside : (i : ℕ) → a ≤ i → i < b → holds c.ranges i ≡ false
  pub longest : (b ≡ total) ⊎ (holds c.ranges b ≡ true)

gap-IsFirstGap :
    (c : Coverage) (total a b : ℕ)
    → IsNormal 0 c.ranges
    → 0 < total
    → gap c total ≡ some (a, b)
    → IsFirstGap c total a b
unfolding gap
gap-IsFirstGap c total a b n h e = record {
  filled = (gap_from-bounds 0 0 total a b c.ranges n (omega arith) h e).1;
  bounded = (gap_from-bounds 0 0 total a b c.ranges n (omega arith) h e).2;
  before = λ i k. gap_from-below 0 0 total i a b c.ranges n e (omega arith) k;
  inside = λ i k l. gap_from-inside 0 0 total i a b c.ranges n (omega arith) h e k l;
  longest = gap_from-longest 0 0 total a b c.ranges n e;
}

-- Where `gap` answers none on a normal coverage, every byte below the total is covered.
gap-none :
    (c : Coverage) (total : ℕ)
    → IsNormal 0 c.ranges
    → gap c total ≡ none
    → (i : ℕ) → i < total
    → holds c.ranges i ≡ true
unfolding gap
gap-none c total n e i h = gap_from-none 0 0 total i c.ranges n e (omega arith) h

-- On a normal coverage and a total that is not 0, `gap` answers none where every byte below the total
-- is covered, and else the first run of bytes that are not: it is not empty, ends by the total, and
-- all before it is covered. After it comes a byte that is covered, or the total.
pub gap_cases :
    (c : Coverage) (total : ℕ)
    → IsNormal 0 c.ranges
    → 0 < total
    → ((gap c total ≡ none) × ((i : ℕ) → i < total → holds c.ranges i ≡ true))
      ⊎ ((a : ℕ) × (b : ℕ) × (gap c total ≡ some (a, b)) × IsFirstGap c total a b)
gap_cases c total n h = elim (Option-cases (gap c total)) [
  | inl e ↦ inl (e, gap-none c total n e)
  | inr ((a, b), e) ↦ inr (a, b, e, gap-IsFirstGap c total a b n h e)
]

prefix_of-holds : (rs : List Range) (i : ℕ) → i < prefix_of rs → holds rs i ≡ true
unfolding prefix_of holds
prefix_of-holds [] i h = elim h [ ]
prefix_of-holds ((f, t) ∷ rs) i h = ground arith

holds-prefix_of : (rs : List Range) → IsNormal 0 rs → holds rs (prefix_of rs) ≡ false
unfolding prefix_of holds
holds-prefix_of [] n = refl
holds-prefix_of ((f, t) ∷ rs) n = ground (arith, holds_below (suc t) t rs, holds_below (suc t) 0 rs)

-- On a normal coverage, all bytes below `prefix` are covered, and the byte at it is not.
prefix_lem :
    (c : Coverage)
    → IsNormal 0 c.ranges
    → ((i : ℕ) → i < prefix c → holds c.ranges i ≡ true) × (holds c.ranges (prefix c) ≡ false)
unfolding prefix
prefix_lem c n = (λ i h. prefix_of-holds c.ranges i h, holds-prefix_of c.ranges n)

is_whole-holds :
    (rs : List Range) (total i : ℕ) → is_whole rs total ≡ true → holds rs i ≡ ltb i total
unfolding is_whole holds
is_whole-holds [] total i h = ground arith
is_whole-holds ((f, t) ∷ []) total i h = ground arith
is_whole-holds (r ∷ q ∷ rs) total i h = cc

is_whole_of_holds :
    (rs : List Range) (total : ℕ)
    → IsNormal 0 rs
    → ((i : ℕ) → holds rs i ≡ ltb i total)
    → is_whole rs total ≡ true
unfolding is_whole holds
is_whole_of_holds [] total n h = ground (arith, h 0)
is_whole_of_holds ((f, t) ∷ []) total n h = ground (arith, h 0, h f, h t, h (t - 1))
is_whole_of_holds ((f, t) ∷ (f', t') ∷ rs) total n h =
    ground (arith, h f', h t, holds_below (suc t') t rs)

-- On a normal coverage, `covers` says that the covered bytes are those below the total, no fewer and
-- no more.
pub covers_iff :
    (c : Coverage) (total : ℕ)
    → IsNormal 0 c.ranges
    → (covers c total ≡ true) ↔ ((i : ℕ) → holds c.ranges i ≡ ltb i total)
unfolding covers
covers_iff c total n =
    (λ h i. is_whole-holds c.ranges total i h, λ h. is_whole_of_holds c.ranges total n h)
