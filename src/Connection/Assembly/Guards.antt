-- ===== src/Connection/Assembly/Guards.antt =====
-- The two termination guards of a reassembly.
use smb1client_rs.Base.{
  ℕ, ◌+◌, ◌<◌, ◌≤◌, ◌≡◌, refl, true, none, List, [], ◌∷◌, arith, length, ok, ap, ok-injective,
  >>=-eq-ok,
}
use smb1client_rs.Connection.Track
use smb1client_rs.Connection.Track.{Track, ReassemblyError, too_many_fragments}
use smb1client_rs.Connection.Assembly.{
  Assembly, Progress, updated, new, accept, reassemble, fragment_cap, empty_tolerance,
  count_fragment, count_empty,
}
use smb1client_rs.Connection.Assembly.Ready.{emptiness}
use smb1client_rs.Connection.Assembly.Deliver.{empties}
use smb1client_rs.Connection.Assembly.Steps.{reassemble-waiting}
use smb1client_rs.Wire.Transaction.{TransactionResponse}

-- A message taken while the buffer is held is counted, and stays below the two caps.
record Counted (a : Assembly) (r : TransactionResponse) (a' : Assembly) : Type 0 where
  buffered : a'.buffered ≡ true
  fragments : a'.fragments ≡ a.fragments + 1
  empty : a'.empty ≡ a.empty + emptiness r
  capped : a.fragments < fragment_cap
  tolerated : a.empty ≤ empty_tolerance → a'.empty ≤ empty_tolerance

count_fragment-counts :
    (a : Assembly) {a' : Assembly}
    → a.buffered ≡ true
    → count_fragment a ≡ ok a'
    → (a'.buffered ≡ true)
      × (a'.fragments ≡ a.fragments + 1)
      × (a'.empty ≡ a.empty)
      × (a.fragments < fragment_cap)
unfolding count_fragment
count_fragment-counts a b e = ground arith

count_empty-counts :
    (a : Assembly) (r : TransactionResponse) {a' : Assembly}
    → a.buffered ≡ true
    → count_empty a r ≡ ok a'
    → (a'.buffered ≡ true)
      × (a'.fragments ≡ a.fragments)
      × (a'.empty ≡ a.empty + emptiness r)
      × (a.empty ≤ empty_tolerance → a'.empty ≤ empty_tolerance)
unfolding count_empty
count_empty-counts a r b e = ground arith

accept-Counted :
    (a : Assembly) (r : TransactionResponse) {a' : Assembly} {p : Progress}
    → a.buffered ≡ true
    → accept a r ≡ ok (a', p)
    → Counted a r a'
unfolding accept
accept-Counted a r b e =
    let (a₁, e₁, k₁) = >>=-eq-ok (count_fragment a) _ e in
    let (t, e₂, k₂) = >>=-eq-ok (Track.declare a₁.parameters r.total_parameter_count) _ k₁ in
    let (u, e₃, k₃) = >>=-eq-ok (Track.declare a₁.payload r.total_data_count) _ k₂ in
    let (t', e₄, k₄) = >>=-eq-ok (Track.accept t r.parameter_displacement r.parameters) _ k₃ in
    let (u', e₅, k₅) = >>=-eq-ok (Track.accept u r.data_displacement r.payload) _ k₄ in
    let (a₂, e₆, k₆) = >>=-eq-ok (count_empty (updated a₁ r t' u') r) _ k₅ in
    let c = count_fragment-counts a b e₁ in
    let c' = count_empty-counts (updated a₁ r t' u') r c.0 e₆ in
    rw (ap (λ (x : Assembly × Progress). x.0) (ok-injective k₆)) at (counted a₁ a₂ c c')
  where
    counted :
        (a₁ a₂ : Assembly)
        → (a₁.buffered ≡ true)
          × (a₁.fragments ≡ a.fragments + 1)
          × (a₁.empty ≡ a.empty)
          × (a.fragments < fragment_cap)
        → (a₂.buffered ≡ true)
          × (a₂.fragments ≡ a₁.fragments)
          × (a₂.empty ≡ a₁.empty + emptiness r)
          × (a₁.empty ≤ empty_tolerance → a₂.empty ≤ empty_tolerance)
        → Counted a r a₂
    counted a₁ a₂ c c' = record {
      buffered = c'.0;
      fragments = omega arith;
      empty = omega arith;
      capped = c.3;
      tolerated = λ h. c'.3 (omega arith);
    }

reassemble-Counted :
    (a : Assembly) (rs : List TransactionResponse)
    → a.buffered ≡ true
    → a.fragments ≤ fragment_cap
    → a.empty ≤ empty_tolerance
    → reassemble a rs ≡ ok none
    → (a.fragments + length rs ≤ fragment_cap) × (a.empty + empties rs ≤ empty_tolerance)
reassemble-Counted a [] b h k e = omega arith
reassemble-Counted a (r ∷ rs) b h k e =
    let (a', p, e', more) = reassemble-waiting a r rs e in
    let c = accept-Counted a r b e' in
    let rest =
      reassemble-Counted a' rs c.buffered (omega (arith, c.capped, c.fragments)) (c.tolerated k)
        more in
    omega (arith, c.fragments, c.empty, rest)

-- A request whose reply is still owed has had at most 64 messages, and at most one of them without
-- bytes: no server keeps a reassembly waiting past that.
pub reassemble_waits :
    (max_p max_d : ℕ) (rs : List TransactionResponse)
    → reassemble (new max_p max_d) rs ≡ ok none
    → (length rs ≤ fragment_cap) × (empties rs ≤ empty_tolerance)
unfolding new
reassemble_waits max_p max_d rs e =
    omega (arith, reassemble-Counted (new max_p max_d) rs refl (omega arith) (omega arith) e)
