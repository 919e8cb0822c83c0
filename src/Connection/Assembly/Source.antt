-- ===== src/Connection/Assembly/Source.antt =====
-- What a reassembly delivers, whatever the server sends: bytes that the messages carried.
use smb1client_rs.Base.{
  ℕ, ◌+◌, ◌-◌, ◌<◌, ◌≤◌, ◌≡◌, refl, sym, ◌∙◌, true, false, Option, some, List, [], ◌∷◌, arith,
  length, ok, get_elem?, Bool-cases, ◌⊎◌, inl, inr,
}
use smb1client_rs.Connection.Coverage.{holds}
use smb1client_rs.Connection.Coverage.Bytes.{within, holds-nil}
use smb1client_rs.Connection.Track
use smb1client_rs.Connection.Track.{Track, is_complete, take_bytes, declare, resize, copy_at}
use smb1client_rs.Connection.Track.Valid.{
  IsValid, new-IsValid, declare-Declared, accept-cases, Declared-IsValid, Accepted-IsValid,
  holds-Declared, holds-Accepted, map-eq_some,
}
use smb1client_rs.Connection.Track.Buffer.{
  get_elem?-resize, copy_at-inside, copy_at-before, copy_at-past,
}

-- A displacement, and the bytes that a message carried there.
abbrev pub Piece : Type 0
Piece = ℕ × List ℕ

-- One of the pieces has `byte` at the position `i`.
abbrev pub Carries : List Piece → ℕ → Option ℕ → Type 0
Carries [] i byte = ⊥
Carries ((d, payload) ∷ rest) i byte =
    ((d ≤ i) × (i < d + length payload) × (get_elem? payload (i - d) ≡ byte)) ⊎ Carries rest i byte

abbrev pub Includes : List Piece → List Piece → Type 0
Includes all some_of = (i : ℕ) (byte : Option ℕ) → Carries some_of i byte → Carries all i byte

-- A valid track whose covered bytes are all bytes of the pieces.
pub record IsSourced (pieces : List Piece) (asked : ℕ) (t : Track) : Type 0 where
  pub valid : IsValid t
  pub bounded : t.asked ≡ asked
  pub sourced :
      (bytes : List ℕ) (i : ℕ)
      → t.bytes ≡ some bytes
      → holds t.covered.ranges i ≡ true
      → Carries pieces i (get_elem? bytes i)

pub new-IsSourced :
    (pieces : List Piece) (block : Track.Block) (asked : ℕ)
    → IsSourced pieces asked (Track.new block asked)
unfolding Track.new
new-IsSourced pieces block asked = record {
  valid = unfold Track.new in new-IsValid block asked;
  bounded = refl;
  sourced = λ bytes i e h. cc (holds-nil i);
}

pub declare-IsSourced :
    (pieces : List Piece) (asked total : ℕ) (t : Track) {t' : Track}
    → declare t total ≡ ok t'
    → IsSourced pieces asked t
    → IsSourced pieces asked t'
declare-IsSourced pieces asked total t e s =
    let d = declare-Declared t total e in
    record {
      valid = Declared-IsValid t total s.valid d;
      bounded = d.asked_eq ∙ s.bounded;
      sourced = λ bytes i e' h.
          let (old, was, e'') = map-eq_some (resize total) t.bytes (sym d.bytes_eq ∙ e') in
          let before : holds t.covered.ranges i ≡ true =
            ground (arith, holds-Declared t total i s.valid d) in
          let same : get_elem? bytes i ≡ get_elem? old i = ground (
            arith,
            holds-Declared t total i s.valid d,
            get_elem?-resize total old i,
            s.valid.inside i,
            s.valid.sized old,
          ) in
          rw same (s.sourced old i was before);
    }

-- What a write leaves at a covered position: a byte of the payload, or the byte that was there.
copied-or-kept :
    (d i : ℕ) (payload old : List ℕ)
    → d + length payload ≤ length old
    → ((d ≤ i)
        × (i < d + length payload)
        × (get_elem? payload (i - d) ≡ get_elem? (copy_at d payload old) i))
      ⊎ ((within d (d + length payload) i ≡ false)
          × (get_elem? (copy_at d payload old) i ≡ get_elem? old i))
copied-or-kept d i payload old fits = elim (Bool-cases (within d (d + length payload) i)) [
  | inl h ↦
      let lo : d ≤ i = ground arith in
      let hi : i < d + length payload = ground arith in
      let e : d + (i - d) ≡ i = omega arith in
      inl (lo, hi, sym (rw e at (copy_at-inside d payload old (i - d) (omega arith) (omega arith))))
  | inr h ↦ inr (h, ground (arith, copy_at-before d payload old i, copy_at-past d payload old i))
]

pub accept-IsSourced :
    (pieces : List Piece) (asked d : ℕ) (payload : List ℕ) (t : Track) {t' : Track}
    → Track.accept t d payload ≡ ok t'
    → Includes pieces ((d, payload) ∷ [])
    → IsSourced pieces asked t
    → IsSourced pieces asked t'
accept-IsSourced pieces asked d payload t {t'} e inc s = elim (accept-cases t d payload e) [
  | inl (nothing, same) ↦ rw same s
  | inr a ↦ record {
    valid = Accepted-IsValid t d payload s.valid a;
    bounded = a.asked_eq ∙ s.bounded;
    sourced = λ bytes i e' h.
        let (old, was, e'') = map-eq_some (copy_at d payload) t.bytes (sym a.bytes_eq ∙ e') in
        let fits : d + length payload ≤ length old = omega (arith, a.fits, s.valid.sized old was) in
        rw e'' (elim (copied-or-kept d i payload old fits) [
          | inl here ↦ inc i (get_elem? (copy_at d payload old) i) (inl here)
          | inr (out, kept) ↦
              rw kept (s.sourced old i was (ground (arith, holds-Accepted t d i payload s.valid a)))
        ]);
  }
]
