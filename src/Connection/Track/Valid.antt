-- ===== src/Connection/Track/Valid.antt =====
-- The invariant of a track, which `declare` and `accept` keep.
use mathlib.Core.Option
use smb1client_rs.Base.{
  ℕ, ◌+◌, ◌<◌, ◌≤◌, ◌≡◌, refl, sym, ◌∙◌, true, false, Option, none, some, List, [], ◌∷◌, arith,
  length, ok, ltb, Bool-cases, ◌&&◌, ◌||◌, ◌⊎◌, inl, inr,
}
use smb1client_rs.Connection.Coverage.{cover, holds}
use smb1client_rs.Connection.Coverage.Normal.{IsNormal}
use smb1client_rs.Connection.Coverage.Bytes.{within, holds-nil}
use smb1client_rs.Connection.Coverage.Cut.{truncate-IsNormal, holds-truncate}
use smb1client_rs.Connection.Coverage.Cover.{cover-IsNormal, holds-cover}
use smb1client_rs.Connection.Track.{Track, Block, new, cut_to, resize, copy_at, declare, accept}
use smb1client_rs.Connection.Track.Buffer.{length-resize, length-copy_at}

-- Only bytes below the total are covered, the total is no more than what was asked for, and the
-- buffer has its size.
pub record IsValid (t : Track) : Type 0 where
  pub normal : IsNormal 0 t.covered.ranges
  pub inside : (i : ℕ) → holds t.covered.ranges i ≡ true → i < t.total
  pub allowed : t.total ≤ t.asked
  pub sized : (bytes : List ℕ) → t.bytes ≡ some bytes → length bytes ≡ t.total

pub new-IsValid : (block : Block) (asked : ℕ) → IsValid (new block asked)
unfolding new
new-IsValid block asked = record {
  normal = tt;
  inside = λ i h. cc (holds-nil i);
  allowed = omega arith;
  sized = λ b e. ground arith;
}

-- Inversion of a successful `declare`.
pub record Declared (t : Track) (total : ℕ) (t' : Track) : Type 0 where
  pub not_revised : (t.declared && ltb t.total total) ≡ false
  pub not_more : total ≤ t.asked
  pub covered_eq : t'.covered ≡ cut_to total t
  pub bytes_eq : t'.bytes ≡ Option.map (resize total) t.bytes
  pub total_eq : t'.total ≡ total
  pub asked_eq : t'.asked ≡ t.asked
  pub declared_eq : t'.declared ≡ true

pub declare-Declared :
    (t : Track) (total : ℕ) {t' : Track} → declare t total ≡ ok t' → Declared t total t'
unfolding declare
declare-Declared t total h = ground arith

holds-cut_to :
    (t : Track) (total i : ℕ)
    → IsValid t
    → holds (cut_to total t).ranges i ≡ (holds t.covered.ranges i && ltb i total)
unfolding cut_to
holds-cut_to t total i v = ground (arith, holds-truncate t.covered total i v.normal, v.inside i)

cut_to-IsNormal : (t : Track) (total : ℕ) → IsValid t → IsNormal 0 (cut_to total t).ranges
unfolding cut_to
cut_to-IsNormal t total v = elim (Bool-cases (ltb total t.total)) [
  | inl h ↦ rw h (truncate-IsNormal t.covered total v.normal)
  | inr h ↦ rw h v.normal
]

pub map-eq_some :
    {A B : Type 0} (f : A → B) (o : Option A) {b : B}
    → Option.map f o ≡ some b
    → (a : A) × (o ≡ some a) × (b ≡ f a)
map-eq_some f none e = cc
map-eq_some f (some a) e = (a, refl, ground arith)

pub holds-Declared :
    (t : Track) (total i : ℕ) {t' : Track}
    → IsValid t
    → Declared t total t'
    → holds t'.covered.ranges i ≡ (holds t.covered.ranges i && ltb i total)
holds-Declared t total i v d = rw d.covered_eq (holds-cut_to t total i v)

pub Declared-IsValid :
    (t : Track) (total : ℕ) {t' : Track} → IsValid t → Declared t total t' → IsValid t'
Declared-IsValid t total {t'} v d = record {
  normal = rw d.covered_eq (cut_to-IsNormal t total v);
  inside = λ i h. ground (arith, holds-Declared t total i v d, d);
  allowed = omega (arith, d.not_more, d.total_eq, d.asked_eq);
  sized = λ b e.
      let (a, old, e') = map-eq_some (resize total) t.bytes (sym d.bytes_eq ∙ e) in
      ground (arith, length-resize total a, d);
}

-- Inversion of a successful `accept` of a payload that is not empty.
pub record Accepted (t : Track) (d : ℕ) (payload : List ℕ) (t' : Track) : Type 0 where
  pub fits : d + length payload ≤ t.total
  pub fresh : (cover t.covered d (length payload)).1 ≡ true
  pub covered_eq : t'.covered ≡ (cover t.covered d (length payload)).0
  pub bytes_eq : t'.bytes ≡ Option.map (copy_at d payload) t.bytes
  pub total_eq : t'.total ≡ t.total
  pub asked_eq : t'.asked ≡ t.asked
  pub declared_eq : t'.declared ≡ t.declared

pub accept-cases :
    (t : Track) (d : ℕ) (payload : List ℕ) {t' : Track}
    → accept t d payload ≡ ok t'
    → ((payload ≡ []) × (t' ≡ t)) ⊎ Accepted t d payload t'
unfolding accept
accept-cases t d [] h = inl (refl, ground arith)
accept-cases t d (p ∷ ps) h = inr (ground arith)

pub holds-Accepted :
    (t : Track) (d i : ℕ) (payload : List ℕ) {t' : Track}
    → IsValid t
    → Accepted t d payload t'
    → holds t'.covered.ranges i ≡ (holds t.covered.ranges i || within d (d + length payload) i)
holds-Accepted t d i payload v a =
    rw a.covered_eq (holds-cover t.covered d (length payload) v.normal a.fresh i)

pub Accepted-IsValid :
    (t : Track) (d : ℕ) (payload : List ℕ) {t' : Track}
    → IsValid t
    → Accepted t d payload t'
    → IsValid t'
Accepted-IsValid t d payload {t'} v a = record {
  normal = rw a.covered_eq (cover-IsNormal t.covered d (length payload) v.normal);
  inside = λ i h. ground (arith, holds-Accepted t d i payload v a, a, v.inside i);
  allowed = omega (arith, a.total_eq, a.asked_eq, v.allowed);
  sized = λ b e.
      let (old, was, e') = map-eq_some (copy_at d payload) t.bytes (sym a.bytes_eq ∙ e) in
      ground (arith, length-copy_at d payload old, a, v.sized old);
}
