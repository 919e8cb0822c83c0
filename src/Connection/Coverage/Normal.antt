-- ===== src/Connection/Coverage/Normal.antt =====
-- The invariant of `Coverage`, and that placing a range keeps it.
use smb1client_rs.Base.{ℕ, suc, ◌≤◌, ◌<◌, ◌≡◌, Bool, true, List, [], ◌∷◌, arith, ◌||◌, not}
use smb1client_rs.Connection.Coverage.{
  Range, partition_point, runs_into, run_into_by, insert, join_next, join_previous,
}

-- Non-empty ranges, in order, from `lo` on, with a byte between each two.
abbrev pub IsNormal : ℕ → List Range → Type 0
IsNormal lo [] = Unit {0}
IsNormal lo ((from, to) ∷ rest) = (lo ≤ from) × (from < to) × IsNormal (suc to) rest

-- What `cover` leaves where nothing overlaps, and the test that it makes before.
unfoldable pub placed : ℕ → ℕ → List Range → List Range
unfolding partition_point insert join_next join_previous
placed s e rs =
    let at = partition_point s rs in join_previous at (join_next at (insert at (s, e) rs))

unfoldable pub is_clear : ℕ → ℕ → List Range → Bool
unfolding partition_point runs_into run_into_by
is_clear s e rs = let at = partition_point s rs in not (runs_into at rs s || run_into_by at rs e)

pub placed-IsNormal :
    (lo s e : ℕ) (rs : List Range)
    → IsNormal lo rs
    → lo ≤ s
    → s < e
    → is_clear s e rs ≡ true
    → IsNormal lo (placed s e rs)
unfolding placed is_clear
placed-IsNormal lo s e [] n h k c = ground arith
placed-IsNormal lo s e ((f, t) ∷ []) n h k c = ground arith
placed-IsNormal lo s e ((f, t) ∷ (f', t') ∷ rest) n h k c =
    ground (arith, placed-IsNormal (suc t) s e ((f', t') ∷ rest))
