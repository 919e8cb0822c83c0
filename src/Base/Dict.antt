-- ===== src/Base/Dict.antt =====
-- `HashMap<u16, V>` as a list of its rows, and `BTreeSet<(Instant, u16)>` as a sorted list.
use Prim.Native.Nat.{ℕ, ◌+◌, ◌≤◌}
use mathlib.Core.Path.{◌≡◌, refl}
use mathlib.Core.Logic.{inl, inr}
use mathlib.Core.Bool.{Bool, true, false, not, ◌&&◌, ◌||◌}
use mathlib.Core.Option.{Option, none, some}
use mathlib.Core.List.{List, [], ◌∷◌}
use native.Mathlib.Omega.{arith}
use smb1client_rs.Base.Tests.{◌==◌, ltb, Bool-cases, if◌then◌else◌}

module _ {ℓ} {V : Type ℓ} where
  unfoldable pub lookup : ℕ → List (ℕ × V) → Option V
  lookup k [] = none
  lookup k ((j, v) ∷ m) = if j == k then some v else lookup k m

  unfoldable pub insert : ℕ → V → List (ℕ × V) → List (ℕ × V)
  insert k v [] = (k, v) ∷ []
  insert k v ((j, u) ∷ m) = if j == k then (k, v) ∷ m else (j, u) ∷ insert k v m

  unfoldable pub remove : ℕ → List (ℕ × V) → List (ℕ × V)
  remove k [] = []
  remove k ((j, u) ∷ m) = if j == k then m else (j, u) ∷ remove k m

  -- No key has two rows.
  abbrev pub HasUniqueKeys : List (ℕ × V) → Type ℓ
  HasUniqueKeys [] = Unit
  HasUniqueKeys ((k, v) ∷ m) = (lookup k m ≡ none) × HasUniqueKeys m

  -- The sum of a weight over the rows.
  unfoldable pub total : (V → ℕ) → List (ℕ × V) → ℕ
  total w [] = 0
  total w ((k, v) ∷ m) = w v + total w m

  abbrev pub weight : (V → ℕ) → Option V → ℕ
  weight w none = 0
  weight w (some v) = w v

  pub lookup-insert :
      (k sought : ℕ) (new : V) (rows : List (ℕ × V))
      → lookup sought (insert k new rows) ≡ (if k == sought then some new else lookup sought rows)
  unfolding lookup insert
  lookup-insert k sought new [] = refl
  lookup-insert k sought new ((i, u) ∷ rows) = ground (arith, lookup-insert k sought new rows)

  pub lookup-remove :
      (k j : ℕ) (m : List (ℕ × V))
      → HasUniqueKeys m
      → lookup j (remove k m) ≡ (if k == j then none else lookup j m)
  unfolding lookup remove
  lookup-remove k j [] u = ground arith
  lookup-remove k j ((i, v) ∷ m) u = ground (arith, lookup-remove k j m u.1)

  pub insert-HasUniqueKeys :
      (k : ℕ) (v : V) (m : List (ℕ × V)) → HasUniqueKeys m → HasUniqueKeys (insert k v m)
  unfolding insert lookup
  insert-HasUniqueKeys k v [] u = ground arith
  insert-HasUniqueKeys k v ((j, w) ∷ m) u =
      ground (arith, insert-HasUniqueKeys k v m u.1, lookup-insert k j v m)

  pub remove-HasUniqueKeys :
      (k : ℕ) (m : List (ℕ × V)) → HasUniqueKeys m → HasUniqueKeys (remove k m)
  unfolding remove
  remove-HasUniqueKeys k [] u = ground arith
  remove-HasUniqueKeys k ((j, w) ∷ m) u =
      ground (arith, remove-HasUniqueKeys k m u.1, lookup-remove k j m u.1)

  pub total-insert :
      (w : V → ℕ) (k : ℕ) (v : V) (m : List (ℕ × V))
      → total w (insert k v m) + weight w (lookup k m) ≡ total w m + w v
  unfolding total insert lookup
  total-insert w k v [] = omega arith
  total-insert w k v ((j, u) ∷ m) = ground (arith, total-insert w k v m)

  pub insert-insert :
      (k : ℕ) (u v : V) (m : List (ℕ × V)) → insert k v (insert k u m) ≡ insert k v m
  unfolding insert
  insert-insert k u v [] = ground arith
  insert-insert k u v ((j, w) ∷ m) = ground (arith, insert-insert k u v m)

  pub remove-insert :
      (k : ℕ) (u v : V) (m : List (ℕ × V))
      → lookup k m ≡ some u
      → remove k (insert k v m) ≡ remove k m
  unfolding insert remove lookup
  remove-insert k u v [] h = ground arith
  remove-insert k u v ((j, w) ∷ m) h = ground (arith, remove-insert k u v m)

  pub total-remove :
      (w : V → ℕ) (k : ℕ) (m : List (ℕ × V))
      → total w (remove k m) + weight w (lookup k m) ≡ total w m
  unfolding total remove lookup
  total-remove w k [] = omega arith
  total-remove w k ((j, u) ∷ m) = ground (arith, total-remove w k m)

-- The order of pairs, and the set in that order.
abbrev pub before : ℕ × ℕ → ℕ × ℕ → Bool
before (a, m) (b, n) = ltb a b || (a == b && ltb m n)

unfoldable pub add : ℕ × ℕ → List (ℕ × ℕ) → List (ℕ × ℕ)
add (a, m) [] = (a, m) ∷ []
add (a, m) ((b, n) ∷ s) =
    if before (a, m) (b, n)
    then (a, m) ∷ (b, n) ∷ s
    else if a == b && m == n
    then (b, n) ∷ s
    else (b, n) ∷ add (a, m) s

unfoldable pub delete : ℕ × ℕ → List (ℕ × ℕ) → List (ℕ × ℕ)
delete (a, m) [] = []
delete (a, m) ((b, n) ∷ s) = if a == b && m == n then s else (b, n) ∷ delete (a, m) s

unfoldable pub has : ℕ → ℕ → List (ℕ × ℕ) → Bool
has a m [] = false
has a m ((b, n) ∷ s) = (a == b && m == n) || has a m s

-- `p` is before the first of the set.
abbrev Leads : ℕ × ℕ → List (ℕ × ℕ) → Type 0
Leads p [] = Unit {0}
Leads p (q ∷ s) = before p q ≡ true

abbrev pub IsOrdered : List (ℕ × ℕ) → Type 0
IsOrdered [] = Unit {0}
IsOrdered (p ∷ s) = Leads p s × IsOrdered s

pub has-add :
    (a m b n : ℕ) (s : List (ℕ × ℕ)) → has a m (add (b, n) s) ≡ ((a == b && m == n) || has a m s)
unfolding has add
has-add a m b n [] = refl
has-add a m b n ((c, o) ∷ s) = ground (arith, has-add a m b n s)

Leads-has :
    (a m b n : ℕ) (s : List (ℕ × ℕ))
    → Leads (a, m) s
    → IsOrdered s
    → has b n s ≡ true
    → before (a, m) (b, n) ≡ true
unfolding has
Leads-has a m b n [] l o h = cc
Leads-has a m b n ((c, p) ∷ s) l o h = ground (arith, Leads-has c p b n s)

before_irrefl : (a m : ℕ) → before (a, m) (a, m) ≡ false
before_irrefl a m = ground arith

-- The head of an ordered set is in it once.
has-Leads : (a m : ℕ) (s : List (ℕ × ℕ)) → Leads (a, m) s → IsOrdered s → has a m s ≡ false
has-Leads a m s l o = elim (Bool-cases (has a m s)) [
  | inl h ↦ cc (Leads-has a m a m s l o h, before_irrefl a m)
  | inr h ↦ h
]

delete_hit : (b n : ℕ) (s : List (ℕ × ℕ)) → delete (b, n) ((b, n) ∷ s) ≡ s
unfolding delete
delete_hit b n s = ground arith

delete_miss :
    (b n c p : ℕ) (s : List (ℕ × ℕ))
    → (c == b && p == n) ≡ false
    → delete (b, n) ((c, p) ∷ s) ≡ (c, p) ∷ delete (b, n) s
unfolding delete
delete_miss b n c p s h = ground arith

both_eq : (a b m n : ℕ) → (a == b && m == n) ≡ true → (a ≡ b) × (m ≡ n)
both_eq a b m n h = ground arith

pub has-delete :
    (a m b n : ℕ) (s : List (ℕ × ℕ))
    → IsOrdered s
    → has a m (delete (b, n) s) ≡ (not (a == b && m == n) && has a m s)
unfolding has
has-delete a m b n [] o = unfold delete in ground arith
has-delete a m b n ((c, p) ∷ s) o = elim (Bool-cases (c == b && p == n)) [
  | inl h ↦
      rw ((both_eq c b p n h).0, (both_eq c b p n h).1, delete_hit b n s)
        (elim (Bool-cases (a == b && m == n)) [
          | inl k ↦ rw (k) (
              rw ((both_eq a b m n k).0, (both_eq a b m n k).1)
                (has-Leads b n s (rw ((both_eq c b p n h).0, (both_eq c b p n h).1) at o.0) o.1))
          | inr k ↦ rw k
        ])
  | inr h ↦ rw (delete_miss b n c p s h, has-delete a m b n s o.1) (ground arith)
]

Leads-add :
    (a m b n : ℕ) (s : List (ℕ × ℕ))
    → before (a, m) (b, n) ≡ true
    → Leads (a, m) s
    → Leads (a, m) (add (b, n) s)
unfolding add
Leads-add a m b n [] h l = h
Leads-add a m b n ((c, p) ∷ s) h l = ground arith

pub add-IsOrdered : (b n : ℕ) (s : List (ℕ × ℕ)) → IsOrdered s → IsOrdered (add (b, n) s)
unfolding add
add-IsOrdered b n [] o = ground arith
add-IsOrdered b n ((c, p) ∷ s) o = ground (arith, add-IsOrdered b n s o.1, Leads-add c p b n s)

Leads-trans :
    (a m b n : ℕ) (s : List (ℕ × ℕ)) → before (a, m) (b, n) ≡ true → Leads (b, n) s → Leads (a, m) s
Leads-trans a m b n [] h l = tt
Leads-trans a m b n ((c, p) ∷ s) h l = ground arith

Leads-delete :
    (a m b n : ℕ) (s : List (ℕ × ℕ)) → Leads (a, m) s → IsOrdered s → Leads (a, m) (delete (b, n) s)
unfolding delete
Leads-delete a m b n [] l o = tt
Leads-delete a m b n ((c, p) ∷ s) l o = ground (arith, Leads-trans a m c p s)

pub delete-IsOrdered : (b n : ℕ) (s : List (ℕ × ℕ)) → IsOrdered s → IsOrdered (delete (b, n) s)
unfolding delete
delete-IsOrdered b n [] o = tt
delete-IsOrdered b n ((c, p) ∷ s) o =
    ground (arith, delete-IsOrdered b n s o.1, Leads-delete c p b n s)

-- The first of an ordered set is no later than any other.
pub first_least :
    (a m b n : ℕ) (s : List (ℕ × ℕ)) → IsOrdered ((a, m) ∷ s) → has b n ((a, m) ∷ s) ≡ true → a ≤ b
unfolding has
first_least a m b n s o h = ground (arith, Leads-has a m b n s)
