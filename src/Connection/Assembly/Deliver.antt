-- ===== src/Connection/Assembly/Deliver.antt =====
-- A reply split into honest messages, which arrive in any order, is delivered byte for byte.
use smb1client_rs.Base.{
  ℕ, suc, ◌+◌, ◌<◌, ◌≤◌, ◌≡◌, refl, ◌∙◌, ap, true, false, some, List, [], ◌∷◌, arith, length, ok,
  ◌||◌, ◌⊎◌, inl, inr,
}
use smb1client_rs.Connection.Coverage.{Range, holds}
use smb1client_rs.Connection.Coverage.Bytes.{within}
use smb1client_rs.Connection.Coverage.Gap.{covers_iff}
use smb1client_rs.Connection.Track
use smb1client_rs.Connection.Track.{Track, is_complete, take_bytes, declare}
use smb1client_rs.Connection.Track.Agrees.{take_bytes-Agrees}
use smb1client_rs.Connection.Track.Ready.{IsFresh, Served, Ready as TrackReady}
use smb1client_rs.Connection.Assembly.{
  Assembly, Progress, continuing, complete, progress, new, accept, finish, reassemble, fragment_cap,
  empty_tolerance,
}
use smb1client_rs.Connection.Assembly.Ready.{
  IsHonest, emptiness, Ready, BothServed, accept-Ready, new-Ready,
}
use smb1client_rs.Wire.Transaction.{TransactionResponse}

-- The spans that messages cover in the two blocks.
abbrev pub parameter_spans : List TransactionResponse → List Range
parameter_spans [] = []
parameter_spans (r ∷ rs) =
    (r.parameter_displacement, r.parameter_displacement + length r.parameters) ∷ parameter_spans rs

abbrev pub data_spans : List TransactionResponse → List Range
data_spans [] = []
data_spans (r ∷ rs) = (r.data_displacement, r.data_displacement + length r.payload) ∷ data_spans rs

-- No byte is in two of the spans.
abbrev pub AreDisjoint : List Range → Type 0
AreDisjoint [] = Unit {0}
AreDisjoint ((from, to) ∷ rest) =
    ((i : ℕ) → within from to i ≡ true → holds rest i ≡ false) × AreDisjoint rest

-- Each of the bytes `0 .. n` is in one of the spans.
abbrev pub Cover : ℕ → List Range → Type 0
Cover n spans = (i : ℕ) → i < n → holds spans i ≡ true

abbrev AllHonest : List ℕ → List ℕ → List TransactionResponse → Type 0
AllHonest P D [] = Unit {0}
AllHonest P D (r ∷ rs) = IsHonest P D r × AllHonest P D rs

-- How many of the messages carry no byte.
abbrev pub empties : List TransactionResponse → ℕ
empties [] = 0
empties (r ∷ rs) = emptiness r + empties rs

-- What a track still waits for, `spans` being still to come.
record Awaits (reply : List ℕ) (t : Track) (spans : List Range) : Type 0 where
  disjoint : AreDisjoint spans
  apart : (i : ℕ) → holds spans i ≡ true → holds t.covered.ranges i ≡ false
  owed : (i : ℕ) → i < length reply → (holds t.covered.ranges i || holds spans i) ≡ true

Awaits-IsFresh :
    (reply : List ℕ) (t : Track) (d : ℕ) (payload : List ℕ) (spans : List Range)
    → Awaits reply t ((d, d + length payload) ∷ spans)
    → IsFresh t d payload
unfolding holds
Awaits-IsFresh reply t d payload spans w i lo hi = ground (arith, w.apart i)

Awaits-step :
    (reply : List ℕ) (t : Track) (d : ℕ) (payload : List ℕ) (spans : List Range) {t' : Track}
    → Awaits reply t ((d, d + length payload) ∷ spans)
    → Served reply t d payload t'
    → Awaits reply t' spans
unfolding holds
Awaits-step reply t d payload spans w s = record {
  disjoint = w.disjoint.1;
  apart = λ i h. ground (arith, s.adds i, w.apart i, w.disjoint.0 i);
  owed = λ i h. ground (arith, s.adds i, w.owed i);
}

-- With nothing still to come, the track is complete.
Awaits-is_complete :
    (reply : List ℕ) (t : Track)
    → TrackReady reply t
    → t.declared ≡ true
    → Awaits reply t []
    → is_complete t ≡ true
unfolding is_complete holds
Awaits-is_complete reply t g k w = rw k (
    (covers_iff t.covered t.total g.valid.normal).1
      (λ i. ground (arith, w.owed i, g.valid.inside i, g.known)))

take_bytes-Ready :
    (reply : List ℕ) (t : Track)
    → TrackReady reply t
    → t.declared ≡ true
    → is_complete t ≡ true
    → take_bytes t ≡ reply
take_bytes-Ready reply t g k c =
    take_bytes-Agrees reply t g.buffer.0 g.valid g.agrees c g.buffer.1 (g.known k)

finish-Ready :
    (P D : List ℕ) (a : Assembly) {n k : ℕ}
    → Ready P D a n k
    → a.parameters.declared ≡ true
    → a.payload.declared ≡ true
    → progress a ≡ complete
    → finish a ≡ (a.setup, P, D)
unfolding finish
finish-Ready P D a g p q c = rw (
  take_bytes-Ready P a.parameters g.parameters_ready p (ground arith),
  take_bytes-Ready D a.payload g.data_ready q (ground arith),
)

abbrev Delivers : List ℕ → List ℕ → Assembly → List TransactionResponse → Type 0
Delivers P D a rs = (setup : List ℕ) × (reassemble a rs ≡ ok (some (setup, P, D)))

Progress-cases : (p : Progress) → (p ≡ complete) ⊎ (p ≡ continuing)
Progress-cases complete = inl refl
Progress-cases continuing = inr refl

reassemble-complete :
    (a a' : Assembly) (r : TransactionResponse) (rs : List TransactionResponse)
    → accept a r ≡ ok (a', progress a')
    → progress a' ≡ complete
    → reassemble a (r ∷ rs) ≡ ok (some (finish a'))
unfolding reassemble
reassemble-complete a a' r rs e p = rw (e, p)

reassemble-continuing :
    (a a' : Assembly) (r : TransactionResponse) (rs : List TransactionResponse)
    → accept a r ≡ ok (a', progress a')
    → progress a' ≡ continuing
    → reassemble a (r ∷ rs) ≡ reassemble a' rs
unfolding reassemble
reassemble-continuing a a' r rs e p = rw (e, p)

-- At the message that completes the reply.
last_message :
    (P D : List ℕ) (a a' : Assembly) (r : TransactionResponse) (rs : List TransactionResponse)
    {n k : ℕ}
    → accept a r ≡ ok (a', progress a')
    → Ready P D a' n k
    → BothServed P D a r a'
    → progress a' ≡ complete
    → Delivers P D a (r ∷ rs)
last_message P D a a' r rs e g s p = (
  a'.setup,
  reassemble-complete a a' r rs e p
      ∙ ap (λ x. ok (some x))
          (finish-Ready P D a' g s.parameters_served.declared s.data_served.declared p),
)

Ready-Delivers :
    (P D : List ℕ) (a : Assembly) (r : TransactionResponse) (rs : List TransactionResponse)
    → Ready P D a (suc (length rs)) (emptiness r + empties rs)
    → AllHonest P D (r ∷ rs)
    → Awaits P a.parameters (parameter_spans (r ∷ rs))
    → Awaits D a.payload (data_spans (r ∷ rs))
    → Delivers P D a (r ∷ rs)
Ready-Delivers P D a r [] g h w v =
    let (a', e, g', s) =
      accept-Ready P D a r 0 0 g h.0 (Awaits-IsFresh P _ _ _ _ w) (Awaits-IsFresh D _ _ _ _ v) in
    let p =
      Awaits-is_complete P a'.parameters g'.parameters_ready s.parameters_served.declared
        (Awaits-step P _ _ _ _ w s.parameters_served) in
    let q =
      Awaits-is_complete D a'.payload g'.data_ready s.data_served.declared
        (Awaits-step D _ _ _ _ v s.data_served) in
    last_message P D a a' r [] e g' s (rw (p, q))
Ready-Delivers P D a r (r' ∷ rs) g h w v =
    let (a', e, g', s) =
      accept-Ready P D a r (suc (length rs)) (emptiness r' + empties rs) g h.0
        (Awaits-IsFresh P _ _ _ _ w) (Awaits-IsFresh D _ _ _ _ v) in
    let w' = Awaits-step P _ _ _ _ w s.parameters_served in
    let v' = Awaits-step D _ _ _ _ v s.data_served in
    let (setup, rest) = Ready-Delivers P D a' r' rs g' h.1 w' v' in
    elim (Progress-cases (progress a')) [
      | inl p ↦ last_message P D a a' r (r' ∷ rs) e g' s p
      | inr p ↦ (setup, reassemble-continuing a a' r (r' ∷ rs) e p ∙ rest)
    ]

new-Awaits :
    (reply : List ℕ) (block : Track.Block) (asked : ℕ) (spans : List Range)
    → AreDisjoint spans
    → Cover (length reply) spans
    → Awaits reply (Track.new block asked) spans
unfolding Track.new holds
new-Awaits reply block asked spans d c = record {
  disjoint = d;
  apart = λ i h. refl;
  owed = λ i h. c i h;
}

-- If a reply's messages, at least one and at most 64 of them, one at most without bytes, each
-- declare the totals of the reply and carry bytes of it, no byte twice and each byte once, and the
-- request asked for that many bytes, then the reassembly takes the messages in whatever order they
-- arrive and ends by delivering exactly the parameter and data bytes of the reply.
pub reassemble-delivers :
    (P D : List ℕ) (max_p max_d : ℕ) (r : TransactionResponse) (rs : List TransactionResponse)
    → length P ≤ max_p
    → length D ≤ max_d
    → length (r ∷ rs) ≤ fragment_cap
    → empties (r ∷ rs) ≤ empty_tolerance
    → AllHonest P D (r ∷ rs)
    → AreDisjoint (parameter_spans (r ∷ rs))
    → Cover (length P) (parameter_spans (r ∷ rs))
    → AreDisjoint (data_spans (r ∷ rs))
    → Cover (length D) (data_spans (r ∷ rs))
    → (setup : List ℕ) × (reassemble (new max_p max_d) (r ∷ rs) ≡ ok (some (setup, P, D)))
unfolding new
reassemble-delivers P D max_p max_d r rs hp hd n k h dp cp dd cd =
    Ready-Delivers P D (new max_p max_d) r rs (new-Ready P D max_p max_d _ _ hp hd n k) h
      (new-Awaits P _ max_p _ dp cp) (new-Awaits D _ max_d _ dd cd)
