-- ===== src/Wire/Offsets.antt =====
-- src/wire/offsets.rs: blocks at absolute offsets, and the byte area that tracks them.
pub mod Blocks
pub mod Area
use Prim.Native.String.{String}
use smb1client_rs.Base.{
  ℕ, zero, suc, ◌+◌, ◌*◌, ◌%◌, ◌/◌, Bool, true, false, ◌&&◌, ◌||◌, List, [], ◌∷◌, ◌++◌, length,
  ◌==◌, if◌then◌else◌, Option, none, some, get_from, get_to, Result, ok, err, ok_or,
}
use smb1client_rs.Wire.Error.{WireError, misaligned_name, block_out_of_range}
use smb1client_rs.Wire.Header.{header_len}

pub record ByteArea : Type 0 where
  pub start : ℕ
  pub bytes : List ℕ

-- `ByteArea::at`
unfoldable pub at : ℕ → ByteArea
at start = record { start = start; bytes = [] }

unfoldable pub for_word_count : ℕ → ByteArea
unfolding at
for_word_count word_count = at (header_len + 1 + word_count * 2 + 2)

unfoldable pub offset : ByteArea → ℕ
offset a = a.start + length a.bytes

-- The loop of `align_to`, with fuel.
pub align_loop : ℕ → ByteArea → ℕ → ByteArea
unfolding offset
align_loop zero a align = a
align_loop (suc fuel) a align =
    let rest = align_loop fuel (record a { bytes = a.bytes ++ 0 ∷ [] }) align in
    if offset a % align == 0 then a else rest

-- `usize::is_power_of_two`, by halving, with fuel.
pub halves_to_one : ℕ → ℕ → Bool
halves_to_one zero n = false
halves_to_one (suc fuel) n = let rest = halves_to_one fuel (n / 2) in n == 1 || (n % 2 == 0 && rest)

unfoldable pub is_power_of_two : ℕ → Bool
unfolding halves_to_one
is_power_of_two n = halves_to_one n n

-- `ByteArea::align_to`; none is the panic of its `debug_assert!`. Less than `align` rounds are enough
-- (`align_loop-Padded` of `Area`).
unfoldable pub align_to : ByteArea → ℕ → Option ByteArea
unfolding is_power_of_two align_loop
align_to a align = if is_power_of_two align then some (align_loop align a align) else none

-- `ByteArea::put`: the area, and the offset that the block starts at.
unfoldable pub put : ByteArea → List ℕ → ByteArea × ℕ
unfolding offset
put a block = (record a { bytes = a.bytes ++ block }, offset a)

-- `ByteArea::put_aligned`; none is the panic of `align_to`.
unfoldable pub put_aligned : ByteArea → ℕ → List ℕ → Option (ByteArea × ℕ)
unfolding align_to put
put_aligned a align block = elim (align_to a align) [
  | none ↦ none
  | some padded ↦ some (put padded block)
]

abbrev pub name_alignment : ℕ
name_alignment = 2

unfoldable pub require_word_aligned : String → ℕ → Result WireError (Unit {0})
require_word_aligned field offset =
    if offset % name_alignment == 0 then ok tt else err (misaligned_name field offset)

unfoldable pub block_at : List ℕ → String → ℕ → ℕ → Result WireError (List ℕ)
block_at message field offset count =
    ok_or (elim (get_from offset message) [ none ↦ none | some rest ↦ get_to count rest ])
      (block_out_of_range field offset count (length message))
