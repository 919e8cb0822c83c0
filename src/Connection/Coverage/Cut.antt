-- ===== src/Connection/Coverage/Cut.antt =====
-- `Coverage::truncate`: it drops the bytes past the total, and nothing else.
use smb1client_rs.Base.{ℕ, suc, ◌≤◌, ◌≡◌, refl, List, [], ◌∷◌, arith, ◌&&◌, ltb}
use smb1client_rs.Connection.Coverage.{Coverage, Range, holds, starting_below, cap_last, truncate}
use smb1client_rs.Connection.Coverage.Normal.{IsNormal}
use smb1client_rs.Connection.Coverage.Bytes.{holds_below}

starting_below_past :
    (lo total : ℕ) (rs : List Range) → IsNormal lo rs → total ≤ lo → starting_below total rs ≡ []
unfolding starting_below
starting_below_past lo total [] n h = refl
starting_below_past lo total ((f, t) ∷ rs) n h =
    ground (arith, starting_below_past (suc t) total rs)

cut : ℕ → List Range → List Range
unfolding starting_below cap_last
cut total rs = cap_last total (starting_below total rs)

cut-IsNormal : (lo total : ℕ) (rs : List Range) → IsNormal lo rs → IsNormal lo (cut total rs)
unfolding cut
cut-IsNormal lo total [] n = tt
cut-IsNormal lo total ((f, t) ∷ []) n = ground arith
cut-IsNormal lo total ((f, t) ∷ (f', t') ∷ rs) n =
    ground
      (arith, cut-IsNormal (suc t) total ((f', t') ∷ rs), starting_below_past (suc t') total rs)

holds-cut :
    (lo total i : ℕ) (rs : List Range)
    → IsNormal lo rs
    → holds (cut total rs) i ≡ (holds rs i && ltb i total)
unfolding cut holds
holds-cut lo total i [] n = refl
holds-cut lo total i ((f, t) ∷ []) n = ground arith
holds-cut lo total i ((f, t) ∷ (f', t') ∷ rs) n = ground (
  arith,
  holds-cut (suc t) total i ((f', t') ∷ rs),
  starting_below_past (suc t') total rs,
  holds_below (suc t') i rs,
)

pub truncate-IsNormal :
    (c : Coverage) (total : ℕ) → IsNormal 0 c.ranges → IsNormal 0 (truncate c total).ranges
unfolding truncate cut
truncate-IsNormal c total n = cut-IsNormal 0 total c.ranges n

pub holds-truncate :
    (c : Coverage) (total i : ℕ)
    → IsNormal 0 c.ranges
    → holds (truncate c total).ranges i ≡ (holds c.ranges i && ltb i total)
unfolding truncate cut
holds-truncate c total i n = holds-cut 0 total i c.ranges n

-- `truncate` keeps a coverage normal, and leaves exactly the covered bytes that are below the total.
truncate_lem :
    (c : Coverage) (total : ℕ)
    → IsNormal 0 c.ranges
    → IsNormal 0 (truncate c total).ranges
      × ((i : ℕ) → holds (truncate c total).ranges i ≡ (holds c.ranges i && ltb i total))
truncate_lem c total n = (truncate-IsNormal c total n, λ i. holds-truncate c total i n)
