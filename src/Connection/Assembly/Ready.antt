-- ===== src/Connection/Assembly/Ready.antt =====
-- What one honest message does to a reassembly.
use smb1client_rs.Base.{
  ℕ, suc, ◌+◌, ◌≤◌, ◌≡◌, refl, true, not, List, arith, length, ok, if◌then◌else◌, ◌&&◌, is_empty,
}
use smb1client_rs.Connection.Track
use smb1client_rs.Connection.Track.{Track, is_complete, declare}
use smb1client_rs.Connection.Track.Ready.{IsSlice, IsFresh, Served, message-Served}
use smb1client_rs.Connection.Track.Ready.{Ready as TrackReady}
use smb1client_rs.Connection.Assembly.{
  Assembly, progress, new, accept, fragment_cap, empty_tolerance, count_empty, count_fragment,
}
use smb1client_rs.Wire.Transaction.{TransactionResponse}

-- One message of the reply of these parameter and data bytes.
pub record IsHonest (parameters payload : List ℕ) (r : TransactionResponse) : Type 0 where
  pub parameter_total : r.total_parameter_count ≡ length parameters
  pub data_total : r.total_data_count ≡ length payload
  pub parameter_slice : IsSlice parameters r.parameter_displacement r.parameters
  pub data_slice : IsSlice payload r.data_displacement r.payload

-- How many messages without bytes a message counts for.
abbrev pub emptiness : TransactionResponse → ℕ
emptiness r = if is_empty r.parameters && is_empty r.payload then 1 else 0

-- A reassembly that has room for `n` messages more, `k` of them without bytes.
pub record Ready (parameters payload : List ℕ) (a : Assembly) (n k : ℕ) : Type 0 where
  pub parameters_ready : TrackReady parameters a.parameters
  pub data_ready : TrackReady payload a.payload
  pub buffered : a.buffered ≡ true
  pub fragments : a.fragments + n ≤ fragment_cap
  pub empties : a.empty + k ≤ empty_tolerance

pub record BothServed (parameters payload : List ℕ) (a : Assembly) (r : TransactionResponse)
    (a' : Assembly) : Type 0 where
  pub parameters_served :
      Served parameters a.parameters r.parameter_displacement r.parameters a'.parameters
  pub data_served : Served payload a.payload r.data_displacement r.payload a'.payload

-- The reassembly after a message that takes its tracks to `t` and `u`.
after : Assembly → TransactionResponse → Track → Track → Assembly
after a r t u = record a {
  parameters = t;
  payload = u;
  setup = if not (is_empty r.setup) then r.setup else a.setup;
  fragments = a.fragments + 1;
  empty = if is_empty r.parameters && is_empty r.payload then a.empty + 1 else a.empty;
}

accept-after :
    (P D : List ℕ) (a : Assembly) (r : TransactionResponse) (n k : ℕ) (t₁ t₂ u₁ u₂ : Track)
    → Ready P D a (suc n) (emptiness r + k)
    → IsHonest P D r
    → declare a.parameters (length P) ≡ ok t₁
    → Track.accept t₁ r.parameter_displacement r.parameters ≡ ok t₂
    → declare a.payload (length D) ≡ ok u₁
    → Track.accept u₁ r.data_displacement r.payload ≡ ok u₂
    → accept a r ≡ ok (after a r t₂ u₂, progress (after a r t₂ u₂))
unfolding accept after count_empty count_fragment
accept-after P D a r n k t₁ t₂ u₁ u₂ g h e₁ e₂ f₁ f₂ = ground (arith, g, h)

-- An honest message whose bytes are new is taken, and the tracks then hold its bytes too.
pub accept-Ready :
    (P D : List ℕ) (a : Assembly) (r : TransactionResponse) (n k : ℕ)
    → Ready P D a (suc n) (emptiness r + k)
    → IsHonest P D r
    → IsFresh a.parameters r.parameter_displacement r.parameters
    → IsFresh a.payload r.data_displacement r.payload
    → (a' : Assembly) × (accept a r ≡ ok (a', progress a'))
      × Ready P D a' n k
      × BothServed P D a r a'
accept-Ready P D a r n k g h f f' =
    let (t₁, t₂, e₁, e₂, s) =
      message-Served P a.parameters r.parameter_displacement r.parameters g.parameters_ready
        h.parameter_slice f in
    let (u₁, u₂, e₁', e₂', s') =
      message-Served D a.payload r.data_displacement r.payload g.data_ready h.data_slice f' in
    (
      after a r t₂ u₂,
      accept-after P D a r n k t₁ t₂ u₁ u₂ g h e₁ e₂ e₁' e₂',
      unfold after in
          record {
            parameters_ready = s.ready;
            data_ready = s'.ready;
            buffered = g.buffered;
            fragments = omega (arith, g.fragments);
            empties = ground (arith, g.empties);
          },
      unfold after in record { parameters_served = s; data_served = s' },
    )

pub new-Ready :
    (P D : List ℕ) (max_p max_d n k : ℕ)
    → length P ≤ max_p
    → length D ≤ max_d
    → n ≤ fragment_cap
    → k ≤ empty_tolerance
    → Ready P D (new max_p max_d) n k
unfolding new
new-Ready P D max_p max_d n k hp hd hn hk = record {
  parameters_ready = unfold new in Track.Ready.new-Ready P _ max_p hp;
  data_ready = unfold new in Track.Ready.new-Ready D _ max_d hd;
  buffered = refl;
  fragments = omega arith;
  empties = omega arith;
}
