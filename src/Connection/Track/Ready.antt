-- ===== src/Connection/Track/Ready.antt =====
-- What one honest message does to a track: both of its calls succeed.
use mathlib.Core.Option
use smb1client_rs.Base.{
  ℕ, ◌+◌, ◌<◌, ◌≤◌, ◌≡◌, refl, ◌∙◌, true, false, some, List, [], ◌∷◌, arith, length, ok, ◌||◌, inl,
  inr,
}
use smb1client_rs.Connection.Coverage.{cover, holds}
use smb1client_rs.Connection.Coverage.Bytes.{within}
use smb1client_rs.Connection.Coverage.Cover.{cover_of_fresh}
use smb1client_rs.Connection.Track.{Track, Block, new, resize, copy_at, cut_to, declare, accept}
use smb1client_rs.Connection.Track.Valid.{
  IsValid, new-IsValid, Accepted, declare-Declared, accept-cases, Declared-IsValid,
  Accepted-IsValid, holds-Declared, holds-Accepted,
}
use smb1client_rs.Connection.Track.Agrees.{
  Agrees, IsPart, new-Agrees, Declared-Agrees, Accepted-Agrees,
}

-- A track that has taken messages of `reply`, none or more, and holds its buffer.
pub record Ready (reply : List ℕ) (t : Track) : Type 0 where
  pub valid : IsValid t
  pub agrees : Agrees reply t
  pub room : length reply ≤ t.asked
  pub known : t.declared ≡ true → t.total ≡ length reply
  pub unknown : t.declared ≡ false → t.total ≡ 0
  pub buffer : (bytes : List ℕ) × (t.bytes ≡ some bytes)

pub new-Ready :
    (reply : List ℕ) (block : Block) (asked : ℕ)
    → length reply ≤ asked
    → Ready reply (new block asked)
unfolding new
new-Ready reply block asked h = record {
  valid = unfold new in new-IsValid block asked;
  agrees = unfold new in new-Agrees reply block asked;
  room = h;
  known = λ e. cc;
  unknown = λ e. refl;
  buffer = ([], refl);
}

-- The bytes of a payload lie within the reply, and are its bytes there.
pub record IsSlice (reply : List ℕ) (d : ℕ) (payload : List ℕ) : Type 0 where
  pub fits : d + length payload ≤ length reply
  pub same : IsPart reply d payload

-- No byte of the span is covered yet.
abbrev pub IsFresh : Track → ℕ → List ℕ → Type 0
IsFresh t d payload = (i : ℕ) → d ≤ i → i < d + length payload → holds t.covered.ranges i ≡ false

-- A step of a track from `t` to `t'` that adds the span of `payload` to the covered bytes.
pub record Served (reply : List ℕ) (t : Track) (d : ℕ) (payload : List ℕ) (t' : Track)
    : Type 0 where
  pub ready : Ready reply t'
  pub declared : t'.declared ≡ true
  pub adds :
      (i : ℕ)
      → holds t'.covered.ranges i ≡ (holds t.covered.ranges i || within d (d + length payload) i)

declare_total :
    (reply : List ℕ) (t : Track) → Ready reply t → (t' : Track) × (declare t (length reply) ≡ ok t')
unfolding declare
declare_total reply t g = (
  record t {
    covered = cut_to (length reply) t;
    bytes = Option.map (resize (length reply)) t.bytes;
    total = length reply;
    declared = true;
  },
  ground (arith, g),
)

declare-Served :
    (reply : List ℕ) (t : Track)
    → Ready reply t
    → (t' : Track) × (declare t (length reply) ≡ ok t') × Served reply t 0 [] t'
declare-Served reply t g =
    let (t', e) = declare_total reply t g in
    let d = declare-Declared t (length reply) e in
    (
      t',
      e,
      record {
        ready = record {
          valid = Declared-IsValid t (length reply) g.valid d;
          agrees = Declared-Agrees reply t (length reply) g.valid d g.agrees;
          room = omega (arith, d.asked_eq, g.room);
          known = λ k. d.total_eq;
          unknown = λ k. cc (d.declared_eq);
          buffer = (resize (length reply) g.buffer.0, d.bytes_eq ∙ ground (arith, g.buffer.1));
        };
        declared = d.declared_eq;
        adds = λ i. ground (
          arith,
          holds-Declared t (length reply) i g.valid d,
          g.valid.inside i,
          g.known,
          g.unknown,
        );
      },
    )

accept_total :
    (reply : List ℕ) (t : Track) (d : ℕ) (payload : List ℕ)
    → Ready reply t
    → t.declared ≡ true
    → IsSlice reply d payload
    → IsFresh t d payload
    → (t' : Track) × (accept t d payload ≡ ok t')
accept_total reply t d [] g k s f = (t, unfold accept in refl)
accept_total reply t d (p ∷ ps) g k s f = (
  record t {
    covered = (cover t.covered d (length (p ∷ ps))).0;
    bytes = Option.map (copy_at d (p ∷ ps)) t.bytes;
  },
  unfold accept in
      ground
        (arith, g.known k, s.fits, cover_of_fresh t.covered d (length (p ∷ ps)) g.valid.normal f),
)

Accepted-Served :
    (reply : List ℕ) (t : Track) (d : ℕ) (payload : List ℕ) {t' : Track}
    → Ready reply t
    → t.declared ≡ true
    → IsPart reply d payload
    → Accepted t d payload t'
    → Served reply t d payload t'
Accepted-Served reply t d payload g k s a = record {
  ready = record {
    valid = Accepted-IsValid t d payload g.valid a;
    agrees = Accepted-Agrees reply t d payload g.valid a s g.agrees;
    room = omega (arith, a.asked_eq, g.room);
    known = λ e. a.total_eq ∙ g.known k;
    unknown = λ e. cc (a.declared_eq);
    buffer = (copy_at d payload g.buffer.0, a.bytes_eq ∙ ground (arith, g.buffer.1));
  };
  declared = a.declared_eq ∙ k;
  adds = λ i. holds-Accepted t d i payload g.valid a;
}

accept-Served :
    (reply : List ℕ) (t : Track) (d : ℕ) (payload : List ℕ)
    → Ready reply t
    → t.declared ≡ true
    → IsSlice reply d payload
    → IsFresh t d payload
    → (t' : Track) × (accept t d payload ≡ ok t') × Served reply t d payload t'
accept-Served reply t d payload g k s f =
    let (t', e) = accept_total reply t d payload g k s f in
    (
      t',
      e,
      elim (accept-cases t d payload e) [
        | inl (nothing, same) ↦
            rw (nothing, same) (record { ready = g; declared = k; adds = λ i. ground arith })
        | inr a ↦ Accepted-Served reply t d payload g k s.same a
      ],
    )

-- Both calls that one honest message makes of a track succeed.
pub message-Served :
    (reply : List ℕ) (t : Track) (d : ℕ) (payload : List ℕ)
    → Ready reply t
    → IsSlice reply d payload
    → IsFresh t d payload
    → (t₁ t₂ : Track) × (declare t (length reply) ≡ ok t₁)
      × (accept t₁ d payload ≡ ok t₂)
      × Served reply t d payload t₂
message-Served reply t d payload g s f =
    let (t₁, e, v) = declare-Served reply t g in
    let fresh : IsFresh t₁ d payload = λ i lo hi. ground (arith, v.adds i, f i) in
    let (t₂, e', w) = accept-Served reply t₁ d payload v.ready v.declared s fresh in
    (
      t₁,
      t₂,
      e,
      e',
      record {
        ready = w.ready;
        declared = w.declared;
        adds = λ i. ground (arith, v.adds i, w.adds i);
      },
    )
