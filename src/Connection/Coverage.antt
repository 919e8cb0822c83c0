-- ===== src/Connection/Coverage.antt =====
-- `Coverage` of src/connection/reassembly.rs: which bytes of a range have arrived.
pub mod Normal
pub mod Cover
pub mod Gap
pub mod Cut
pub mod Bytes
use smb1client_rs.Base.{
  ℕ, zero, suc, ◌+◌, ◌<◌, ◌≤◌, ◌≡◌, Bool, true, false, ◌&&◌, ◌||◌, Option, none, some, List, [],
  ◌∷◌, ltb, leb, ◌==◌, if◌then◌else◌, get_elem?, min, refl,
}

-- A half-open range, `(from, to)`.
abbrev pub Range : Type 0
Range = ℕ × ℕ

pub record Coverage : Type 0 where
  pub ranges : List Range

abbrev pub empty : Coverage
empty = record { ranges = [] }

-- `ranges.partition_point(|&(from, _)| from < start)`
pub partition_point : ℕ → List Range → ℕ
partition_point start [] = 0
partition_point start ((from, to) ∷ rest) =
    if ltb from start then suc (partition_point start rest) else 0

-- `at > 0 && ranges[at - 1].1 > start`
pub runs_into : ℕ → List Range → ℕ → Bool
runs_into zero ranges start = false
runs_into (suc k) ranges start = elim (get_elem? ranges k) [
  | none ↦ false
  | some (from, to) ↦ ltb start to
]

-- `at < ranges.len() && ranges[at].0 < end`
pub run_into_by : ℕ → List Range → ℕ → Bool
run_into_by at ranges end = elim (get_elem? ranges at) [
  | none ↦ false
  | some (from, to) ↦ ltb from end
]

-- `Vec::insert`
pub insert : ℕ → Range → List Range → List Range
insert zero r ranges = r ∷ ranges
insert (suc k) r [] = r ∷ []
insert (suc k) r (q ∷ ranges) = q ∷ insert k r ranges

-- Where `ranges[k]` ends at the start of `ranges[k + 1]`, the first takes in the second.
pub join_next : ℕ → List Range → List Range
join_next k [] = []
join_next zero (r ∷ []) = r ∷ []
join_next zero ((from, to) ∷ (from', to') ∷ ranges) =
    if to == from' then (from, to') ∷ ranges else (from, to) ∷ (from', to') ∷ ranges
join_next (suc k) (r ∷ ranges) = r ∷ join_next k ranges

-- The same with `ranges[at - 1]` and `ranges[at]`, where there is a predecessor.
pub join_previous : ℕ → List Range → List Range
unfolding join_next
join_previous zero ranges = ranges
join_previous (suc k) ranges = join_next k ranges

-- `Coverage::cover`; the flag is the value returned.
unfoldable pub cover : Coverage → ℕ → ℕ → Coverage × Bool
unfolding partition_point runs_into run_into_by insert join_next join_previous
cover c start length =
    let end = start + length in
    let at = partition_point start c.ranges in
    if length == 0
    then (c, true)
    else if runs_into at c.ranges start
    then (c, false)
    else if run_into_by at c.ranges end
    then (c, false)
    else (
      record { ranges = join_previous at (join_next at (insert at (start, end) c.ranges)) },
      true,
    )

-- `retain(|&(from, _)| from < total)`
pub starting_below : ℕ → List Range → List Range
starting_below total [] = []
starting_below total ((from, to) ∷ rest) =
    if ltb from total then (from, to) ∷ starting_below total rest else starting_below total rest

-- `if let Some(last) = ranges.last_mut() { last.1 = last.1.min(total) }`
pub cap_last : ℕ → List Range → List Range
cap_last total [] = []
cap_last total ((from, to) ∷ []) = (from, min to total) ∷ []
cap_last total (r ∷ q ∷ rest) = r ∷ cap_last total (q ∷ rest)

-- `Coverage::truncate`
unfoldable pub truncate : Coverage → ℕ → Coverage
unfolding starting_below cap_last
truncate c total = record { ranges = cap_last total (starting_below total c.ranges) }

-- The loop of `Coverage::gap`, at the byte `at`.
pub gap_from : ℕ → List Range → ℕ → Option Range
gap_from at [] total = if ltb at total then some (at, total) else none
gap_from at ((from, to) ∷ rest) total =
    let next = gap_from to rest total in
    if ltb at from then some (at, min from total) else if leb total to then none else next

-- `Coverage::gap`
unfoldable pub gap : Coverage → ℕ → Option Range
unfolding gap_from
gap c total = gap_from 0 c.ranges total

pub prefix_of : List Range → ℕ
prefix_of [] = 0
prefix_of ((from, to) ∷ rest) = if from == 0 then to else 0

-- `Coverage::prefix`
unfoldable pub prefix : Coverage → ℕ
unfolding prefix_of
prefix c = prefix_of c.ranges

pub is_whole : List Range → ℕ → Bool
is_whole [] total = total == 0
is_whole ((from, to) ∷ []) total = from == 0 && to == total
is_whole (r ∷ q ∷ rest) total = false

-- `Coverage::covers`
unfoldable pub covers : Coverage → ℕ → Bool
unfolding is_whole
covers c total = is_whole c.ranges total

-- Whether the byte `i` is in one of the ranges: what a coverage stands for.
unfoldable pub holds : List Range → ℕ → Bool
holds [] i = false
holds ((from, to) ∷ rest) i = (leb from i && ltb i to) || holds rest i
