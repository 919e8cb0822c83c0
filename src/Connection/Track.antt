-- ===== src/Connection/Track.antt =====
-- `Track` and `ReassemblyError` of src/connection/reassembly.rs: one of the two blocks that a
-- transaction reply carries. An operation that fails has changed nothing.
pub mod Buffer
pub mod Valid
pub mod Ready
pub mod Agrees
use smb1client_rs.Base.{
  ℕ, zero, suc, ◌+◌, ◌-◌, Bool, true, false, ◌&&◌, Option, none, some, List, [], ◌∷◌, ◌++◌, ltb,
  ◌==◌, if◌then◌else◌, not, is_empty, length, take, replicate, Result, ok, err, ◌>>=◌, ◌>>◌, guard,
}
use smb1client_rs.Connection.Coverage.{Coverage, empty, cover, truncate, covers}
use mathlib.Core.Option

-- The two names that a `Track` carries.
pub data Block : Type 0 where
  parameter_block data_block : Block

pub data ReassemblyError : Type 0 where
  revised_upward : Block → (declared revised : ℕ) → ReassemblyError
  outside_declared_range : Block → (displacement length total : ℕ) → ReassemblyError
  overlapping : Block → (displacement length : ℕ) → ReassemblyError
  more_than_asked : Block → (total asked : ℕ) → ReassemblyError
  too_many_fragments : ℕ → ReassemblyError
  no_progress : ReassemblyError

pub record Track : Type 0 where
  pub block : Block
  pub total : ℕ
  pub asked : ℕ
  pub declared : Bool
  pub covered : Coverage
  pub bytes : Option (List ℕ)

-- `Track::new`
unfoldable pub new : Block → ℕ → Track
new block asked = record {
  block = block;
  total = 0;
  asked = asked;
  declared = false;
  covered = empty;
  bytes = some [];
}

-- `Vec::resize(total, 0)`
pub resize : ℕ → List ℕ → List ℕ
resize total bytes = take total bytes ++ replicate (total - length bytes) 0

-- `if total < self.total { self.covered.truncate(total) }`
pub cut_to : ℕ → Track → Coverage
cut_to total t = if ltb total t.total then truncate t.covered total else t.covered

-- `Track::declare`
unfoldable pub declare : Track → ℕ → Result ReassemblyError Track
unfolding resize cut_to
declare t total =
    if t.declared && ltb t.total total
    then err (revised_upward t.block t.total total)
    else if ltb t.asked total
    then err (more_than_asked t.block total t.asked)
    else ok (record t {
      covered = cut_to total t;
      bytes = Option.map (resize total) t.bytes;
      total = total;
      declared = true;
    })

-- The bytes with `payload` written over their front.
pub overlay : List ℕ → List ℕ → List ℕ
overlay bytes [] = bytes
overlay [] (p ∷ payload) = []
overlay (b ∷ bytes) (p ∷ payload) = p ∷ overlay bytes payload

-- `bytes[at..at + payload.len()].copy_from_slice(payload)`, which the guards keep in bounds.
unfoldable pub copy_at : ℕ → List ℕ → List ℕ → List ℕ
unfolding overlay
copy_at zero payload bytes = overlay bytes payload
copy_at (suc at) payload [] = []
copy_at (suc at) payload (b ∷ bytes) = b ∷ copy_at at payload bytes

-- `Track::accept`
unfoldable pub accept : Track → ℕ → List ℕ → Result ReassemblyError Track
unfolding copy_at
accept t displacement payload =
    let (covered, fresh) = cover t.covered displacement (length payload) in
    if is_empty payload
    then ok t
    else if ltb t.total (displacement + length payload)
    then err (outside_declared_range t.block displacement (length payload) t.total)
    else if not fresh
    then err (overlapping t.block displacement (length payload))
    else ok
        (record t { covered = covered; bytes = Option.map (copy_at displacement payload) t.bytes })

-- `Track::complete`
unfoldable pub is_complete : Track → Bool
is_complete t = t.declared && covers t.covered t.total

-- `Track::release`
unfoldable pub release : Track → Track
release t = record t { bytes = none }

-- `Track::take`
unfoldable pub take_bytes : Track → List ℕ
take_bytes t = elim t.bytes [ none ↦ [] | some bytes ↦ bytes ]
