-- ===== src/Connection/Track/Agrees.antt =====
-- A track whose messages agree with one reply holds the bytes of that reply.
use smb1client_rs.Base.{
  ℕ, ◌+◌, ◌-◌, ◌<◌, ◌≤◌, ◌≡◌, sym, ◌∙◌, true, some, List, arith, length, get_elem?,
}
use smb1client_rs.Connection.Coverage.{holds, covers}
use smb1client_rs.Connection.Coverage.Bytes.{holds-nil}
use smb1client_rs.Connection.Coverage.Gap.{covers_iff}
use smb1client_rs.Connection.Track.{Track, Block, new, resize, copy_at, is_complete, take_bytes}
use smb1client_rs.Connection.Track.Buffer.{
  get_elem?-resize, copy_at-inside, copy_at-before, copy_at-past, eq_of_get_elem?,
}
use smb1client_rs.Connection.Track.Valid.{
  IsValid, Declared, Accepted, holds-Declared, holds-Accepted, map-eq_some,
}

-- The covered bytes of the buffer are those of `reply`, as far as the reply goes.
abbrev pub Agrees : List ℕ → Track → Type 0
Agrees reply t =
    (bytes : List ℕ) (i : ℕ)
    → t.bytes ≡ some bytes
    → i < length reply
    → holds t.covered.ranges i ≡ true
    → get_elem? bytes i ≡ get_elem? reply i

-- A payload that carries the bytes of `reply` from `d` on, as far as the reply goes.
abbrev pub IsPart : List ℕ → ℕ → List ℕ → Type 0
IsPart reply d payload =
    (k : ℕ)
    → k < length payload
    → d + k < length reply
    → get_elem? payload k ≡ get_elem? reply (d + k)

pub new-Agrees : (reply : List ℕ) (block : Block) (asked : ℕ) → Agrees reply (new block asked)
unfolding new
new-Agrees reply block asked bytes i e h k = cc (holds-nil i)

pub Declared-Agrees :
    (reply : List ℕ) (t : Track) (total : ℕ) {t' : Track}
    → IsValid t
    → Declared t total t'
    → Agrees reply t
    → Agrees reply t'
Declared-Agrees reply t total {t'} v d g bytes i e h k =
    let (old, was, e') = map-eq_some (resize total) t.bytes (sym d.bytes_eq ∙ e) in
    ground (
      arith,
      holds-Declared t total i v d,
      get_elem?-resize total old i,
      v.inside i,
      v.sized old,
      g old i,
    )

copied :
    (reply payload old : List ℕ) (d i : ℕ)
    → d + length payload ≤ length old
    → i < length reply
    → IsPart reply d payload
    → d ≤ i
    → i < d + length payload
    → get_elem? (copy_at d payload old) i ≡ get_elem? reply i
copied reply payload old d i fits h part lo hi =
    let e : d + (i - d) ≡ i = omega arith in
    let inside = copy_at-inside d payload old (i - d) (omega arith) (omega arith) in
    let same = part (i - d) (omega arith) (omega arith) in rw e at (inside ∙ same)

pub Accepted-Agrees :
    (reply : List ℕ) (t : Track) (d : ℕ) (payload : List ℕ) {t' : Track}
    → IsValid t
    → Accepted t d payload t'
    → IsPart reply d payload
    → Agrees reply t
    → Agrees reply t'
Accepted-Agrees reply t d payload {t'} v a part g bytes i e h k =
    let (old, was, e') = map-eq_some (copy_at d payload) t.bytes (sym a.bytes_eq ∙ e) in
    ground (
      arith,
      holds-Accepted t d i payload v a,
      copied reply payload old d i,
      copy_at-before d payload old i,
      copy_at-past d payload old i,
      part,
      a,
      v.sized old,
      g old i,
    )

-- A complete track that holds `reply` so far, with the reply's length for its total, delivers it.
pub take_bytes-Agrees :
    (reply : List ℕ) (t : Track) (bytes : List ℕ)
    → IsValid t
    → Agrees reply t
    → is_complete t ≡ true
    → t.bytes ≡ some bytes
    → t.total ≡ length reply
    → take_bytes t ≡ reply
unfolding is_complete take_bytes
take_bytes-Agrees reply t bytes v g c e l = rw e (
    eq_of_get_elem? bytes reply (v.sized bytes e ∙ l) (λ i h.
      g bytes i e (omega (arith, v.sized bytes e)) (covered i (omega (arith, v.sized bytes e)))))
  where
    whole : covers t.covered t.total ≡ true
    whole = ground arith

    covered : (i : ℕ) → i < t.total → holds t.covered.ranges i ≡ true
    covered i h = (covers_iff t.covered t.total v.normal).0 whole i ∙ ground arith
