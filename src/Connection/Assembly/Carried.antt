-- ===== src/Connection/Assembly/Carried.antt =====
-- What a reassembly delivers, whatever the server sends.
use smb1client_rs.Base.{
  ℕ, ◌<◌, ◌≤◌, ◌≡◌, ◌∙◌, ap, true, Option, some, List, [], ◌∷◌, arith, length, ok, get_elem?,
  Option-cases, inl, inr,
}
use smb1client_rs.Connection.Coverage.{holds, covers}
use smb1client_rs.Connection.Coverage.Gap.{covers_iff}
use smb1client_rs.Connection.Track.{Track, is_complete, take_bytes}
use smb1client_rs.Connection.Assembly.{
  Assembly, Progress, complete, progress, new, accept, finish, reassemble,
}
use smb1client_rs.Wire.Transaction.{TransactionResponse}
use smb1client_rs.Connection.Assembly.Source.{
  Piece, Carries, Includes, IsSourced, new-IsSourced, declare-IsSourced, accept-IsSourced,
}
use smb1client_rs.Connection.Assembly.Steps.{accept-Steps, reassemble-cases}

-- The pieces of the messages in the two blocks.
abbrev pub parameter_pieces : List TransactionResponse → List Piece
parameter_pieces [] = []
parameter_pieces (r ∷ rs) = (r.parameter_displacement, r.parameters) ∷ parameter_pieces rs

abbrev pub data_pieces : List TransactionResponse → List Piece
data_pieces [] = []
data_pieces (r ∷ rs) = (r.data_displacement, r.payload) ∷ data_pieces rs

-- A delivered block holds no more than the request asked for, and only bytes of the pieces.
abbrev pub IsCarried : List Piece → ℕ → List ℕ → Type 0
IsCarried pieces asked bytes =
    (length bytes ≤ asked) × ((i : ℕ) → i < length bytes → Carries pieces i (get_elem? bytes i))

take_bytes-IsCarried :
    (pieces : List Piece) (asked : ℕ) (t : Track)
    → IsSourced pieces asked t
    → is_complete t ≡ true
    → IsCarried pieces asked (take_bytes t)
unfolding take_bytes is_complete
take_bytes-IsCarried pieces asked t s c = elim (Option-cases t.bytes) [
  | inl e ↦ rw e (omega arith, λ i h. elim h [ ])
  | inr (bytes, e) ↦ rw e (
    omega (arith, s.valid.sized bytes e, s.valid.allowed, s.bounded),
    λ i h. s.sourced bytes i e (covered i (omega (arith, s.valid.sized bytes e))),
  )
]
  where
    whole : covers t.covered t.total ≡ true
    whole = ground arith

    covered : (i : ℕ) → i < t.total → holds t.covered.ranges i ≡ true
    covered i h = (covers_iff t.covered t.total s.valid.normal).0 whole i ∙ ground arith

record BothSourced (ps ds : List Piece) (max_p max_d : ℕ) (a : Assembly) : Type 0 where
  parameters_sourced : IsSourced ps max_p a.parameters
  data_sourced : IsSourced ds max_d a.payload

accept-BothSourced :
    (ps ds : List Piece) (max_p max_d : ℕ) (a : Assembly) (r : TransactionResponse) {a' : Assembly}
    {p : Progress}
    → accept a r ≡ ok (a', p)
    → Includes ps ((r.parameter_displacement, r.parameters) ∷ [])
    → Includes ds ((r.data_displacement, r.payload) ∷ [])
    → BothSourced ps ds max_p max_d a
    → BothSourced ps ds max_p max_d a'
accept-BothSourced ps ds max_p max_d a r e i j s =
    let (w, last) = accept-Steps a r e in
    record {
      parameters_sourced =
          accept-IsSourced ps max_p _ _ w.t w.t_accepted i
            (declare-IsSourced ps max_p _ a.parameters w.t_declared s.parameters_sourced);
      data_sourced =
          accept-IsSourced ds max_d _ _ w.u w.u_accepted j
            (declare-IsSourced ds max_d _ a.payload w.u_declared s.data_sourced);
    }

finish-IsCarried :
    (ps ds : List Piece) (max_p max_d : ℕ) (a : Assembly) {setup parameters payload : List ℕ}
    → BothSourced ps ds max_p max_d a
    → progress a ≡ complete
    → finish a ≡ (setup, parameters, payload)
    → IsCarried ps max_p parameters × IsCarried ds max_d payload
unfolding finish
finish-IsCarried ps ds max_p max_d a s whole end = (
  rw (ap (λ (x : List ℕ × List ℕ × List ℕ). x.1) end) at
      (take_bytes-IsCarried ps max_p a.parameters s.parameters_sourced (ground arith)),
  rw (ap (λ (x : List ℕ × List ℕ × List ℕ). x.2) end) at
      (take_bytes-IsCarried ds max_d a.payload s.data_sourced (ground arith)),
)

front :
    (piece : Piece) (rest : List Piece) (i : ℕ) (byte : Option ℕ)
    → Carries (piece ∷ []) i byte
    → Carries (piece ∷ rest) i byte
front piece rest i byte (inl h) = inl h
front piece rest i byte (inr h) = absurd h

reassemble-BothSourced :
    (ps ds : List Piece) (max_p max_d : ℕ) (a : Assembly) (rs : List TransactionResponse)
    {setup parameters payload : List ℕ}
    → Includes ps (parameter_pieces rs)
    → Includes ds (data_pieces rs)
    → BothSourced ps ds max_p max_d a
    → reassemble a rs ≡ ok (some (setup, parameters, payload))
    → IsCarried ps max_p parameters × IsCarried ds max_d payload
reassemble-BothSourced ps ds max_p max_d a [] i j s e = unfold reassemble in cc
reassemble-BothSourced ps ds max_p max_d a (r ∷ rs) {setup} {parameters} {payload} i j s e =
    let (a', e', next) = reassemble-cases a r rs e in
    let s' =
      accept-BothSourced ps ds max_p max_d a r e'
        (λ n b c. i n b (front _ (parameter_pieces rs) n b c))
        (λ n b c. j n b (front _ (data_pieces rs) n b c)) s in
    elim next [
      | inl (whole, end) ↦ finish-IsCarried ps ds max_p max_d a' s' whole end
      | inr more ↦
          reassemble-BothSourced ps ds max_p max_d a' rs (λ n b c. i n b (inr c))
            (λ n b c. j n b (inr c)) s' more
    ]

-- Whatever messages arrive, a reassembly that delivers gives no more bytes than the request asked
-- for, and each of them is a byte that a message carried for its place: none is filler.
pub reassemble-IsCarried :
    (max_p max_d : ℕ) (rs : List TransactionResponse) {setup parameters payload : List ℕ}
    → reassemble (new max_p max_d) rs ≡ ok (some (setup, parameters, payload))
    → IsCarried (parameter_pieces rs) max_p parameters × IsCarried (data_pieces rs) max_d payload
unfolding new
reassemble-IsCarried max_p max_d rs e =
    reassemble-BothSourced (parameter_pieces rs) (data_pieces rs) max_p max_d (new max_p max_d) rs
      (λ n b c. c) (λ n b c. c)
      (record {
        parameters_sourced = new-IsSourced _ _ max_p;
        data_sourced = new-IsSourced _ _ max_d;
      })
      e
