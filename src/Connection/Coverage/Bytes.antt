-- ===== src/Connection/Coverage/Bytes.antt =====
-- Which bytes a coverage stands for after each operation.
use smb1client_rs.Base.{
  ℕ, zero, suc, ◌≤◌, ◌<◌, ◌≡◌, refl, ◌∙◌, Bool, true, false, List, [], ◌∷◌, arith, ◌&&◌, ◌||◌, leb,
  ltb,
}
use smb1client_rs.Connection.Coverage.{
  Range, partition_point, insert, join_next, join_previous, holds,
}
use smb1client_rs.Connection.Coverage.Normal.{IsNormal, placed, is_clear}

abbrev pub within : ℕ → ℕ → ℕ → Bool
within s e i = leb s i && ltb i e

abbrev AllNonEmpty : List Range → Type 0
AllNonEmpty [] = Unit {0}
AllNonEmpty ((f, t) ∷ rs) = (f < t) × AllNonEmpty rs

IsNormal-AllNonEmpty : (lo : ℕ) (rs : List Range) → IsNormal lo rs → AllNonEmpty rs
IsNormal-AllNonEmpty lo [] n = tt
IsNormal-AllNonEmpty lo ((f, t) ∷ rs) n = (n.1, IsNormal-AllNonEmpty (suc t) rs n.2)

insert-AllNonEmpty :
    (k s e : ℕ) (rs : List Range) → s < e → AllNonEmpty rs → AllNonEmpty (insert k (s, e) rs)
unfolding insert
insert-AllNonEmpty zero s e rs h n = (h, n)
insert-AllNonEmpty (suc k) s e [] h n = (h, tt)
insert-AllNonEmpty (suc k) s e (r ∷ rs) h n = (n.0, insert-AllNonEmpty k s e rs h n.1)

join_next-AllNonEmpty : (k : ℕ) (rs : List Range) → AllNonEmpty rs → AllNonEmpty (join_next k rs)
unfolding join_next
join_next-AllNonEmpty k [] n = tt
join_next-AllNonEmpty zero (r ∷ []) n = n
join_next-AllNonEmpty zero ((f, t) ∷ (f', t') ∷ rs) n = ground arith
join_next-AllNonEmpty (suc k) (r ∷ rs) n = (n.0, join_next-AllNonEmpty k rs n.1)

holds-insert :
    (k s e i : ℕ) (rs : List Range) → holds (insert k (s, e) rs) i ≡ (holds rs i || within s e i)
unfolding insert holds
holds-insert zero s e i rs = ground arith
holds-insert (suc k) s e i [] = ground arith
holds-insert (suc k) s e i ((f, t) ∷ rs) = ground (arith, holds-insert k s e i rs)

holds-join_next :
    (k i : ℕ) (rs : List Range) → AllNonEmpty rs → holds (join_next k rs) i ≡ holds rs i
unfolding join_next holds
holds-join_next k i [] n = refl
holds-join_next zero i (r ∷ []) n = refl
holds-join_next zero i ((f, t) ∷ (f', t') ∷ rs) n = ground arith
holds-join_next (suc k) i ((f, t) ∷ rs) n = ground (arith, holds-join_next k i rs)

holds-join_previous :
    (k i : ℕ) (rs : List Range) → AllNonEmpty rs → holds (join_previous k rs) i ≡ holds rs i
unfolding join_previous
holds-join_previous zero i rs n = refl
holds-join_previous (suc k) i rs n = holds-join_next k i rs n

pub holds-placed :
    (lo s e i : ℕ) (rs : List Range)
    → IsNormal lo rs
    → s < e
    → holds (placed s e rs) i ≡ (holds rs i || within s e i)
unfolding placed
holds-placed lo s e i rs n h =
    holds-join_previous at i (join_next at (insert at (s, e) rs))
      (join_next-AllNonEmpty at _ inserted)
    ∙ holds-join_next at i (insert at (s, e) rs) inserted
    ∙ holds-insert at s e i rs
  where
    at : ℕ
    at = partition_point s rs

    inserted : AllNonEmpty (insert at (s, e) rs)
    inserted = insert-AllNonEmpty at s e rs h (IsNormal-AllNonEmpty lo rs n)

pub holds_below : (lo i : ℕ) (rs : List Range) → IsNormal lo rs → i < lo → holds rs i ≡ false
unfolding holds
holds_below lo i [] n h = refl
holds_below lo i ((f, t) ∷ rs) n h = ground (arith, holds_below (suc t) i rs)

-- A clear span holds no byte yet.
pub is_clear-holds :
    (lo s e i : ℕ) (rs : List Range)
    → IsNormal lo rs
    → is_clear s e rs ≡ true
    → s ≤ i
    → i < e
    → holds rs i ≡ false
unfolding is_clear holds
is_clear-holds lo s e i [] n c h k = refl
is_clear-holds lo s e i ((f, t) ∷ []) n c h k = ground arith
is_clear-holds lo s e i ((f, t) ∷ (f', t') ∷ rs) n c h k =
    ground (arith, is_clear-holds (suc t) s e i ((f', t') ∷ rs), holds_below (suc t') i rs)

-- One that holds none is clear.
pub is_clear_of_holds :
    (lo s e : ℕ) (rs : List Range)
    → IsNormal lo rs
    → s < e
    → ((i : ℕ) → s ≤ i → i < e → holds rs i ≡ false)
    → is_clear s e rs ≡ true
unfolding is_clear holds
is_clear_of_holds lo s e [] n k h = refl
is_clear_of_holds lo s e ((f, t) ∷ []) n k h = ground (arith, h s, h f)
is_clear_of_holds lo s e ((f, t) ∷ (f', t') ∷ rs) n k h =
    ground (arith, is_clear_of_holds (suc t) s e ((f', t') ∷ rs), h s, h f, h f')

pub holds-nil : (i : ℕ) → holds [] i ≡ false
unfolding holds
holds-nil i = refl
