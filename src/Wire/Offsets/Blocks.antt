-- ===== src/Wire/Offsets/Blocks.antt =====
-- `block_at` reads inside the message or not at all.
use Prim.Native.String.{String}
use smb1client_rs.Base.{
  ℕ, zero, suc, ◌+◌, ◌≤◌, ◌<◌, ◌≡◌, ◌⊎◌, inl, inr, refl, ◌∙◌, ap, List, [], ◌∷◌, length, drop, take,
  arith, ok, err, get_elem?, length-take, length-drop,
}
use smb1client_rs.Wire.Error.{block_out_of_range}
use smb1client_rs.Wire.Offsets.{block_at}
use native.Mathlib.Decide.{dec_le}

get_elem?-drop {ℓ} :
    {A : Type ℓ} (n i : ℕ) (xs : List A) → get_elem? (drop n xs) i ≡ get_elem? xs (n + i)
get_elem?-drop zero i xs = let e : i ≡ 0 + i = omega arith in ap (get_elem? xs) e
get_elem?-drop (suc n) i [] = refl
get_elem?-drop (suc n) i (x ∷ xs) =
    let e : suc (n + i) ≡ suc n + i = omega arith in
    get_elem?-drop n i xs ∙ ap (get_elem? (x ∷ xs)) e

get_elem?-take {ℓ} :
    {A : Type ℓ} (n i : ℕ) (xs : List A) → i < n → get_elem? (take n xs) i ≡ get_elem? xs i
get_elem?-take zero i xs h = elim h [ ]
get_elem?-take (suc n) i [] h = refl
get_elem?-take (suc n) zero (x ∷ xs) h = refl
get_elem?-take (suc n) (suc i) (x ∷ xs) h = get_elem?-take n i xs (omega arith)

block_at-eq :
    (message : List ℕ) (field : String) (offset count : ℕ)
    → offset + count ≤ length message
    → block_at message field offset count ≡ ok (take count (drop offset message))
unfolding block_at
block_at-eq message field offset count h = ground (arith, length-drop offset message)

block_at_inside :
    (message : List ℕ) (field : String) (offset count : ℕ)
    → offset + count ≤ length message
    → (block : List ℕ) × (block_at message field offset count ≡ ok block)
      × (length block ≡ count)
      × ((i : ℕ) → i < count → get_elem? block i ≡ get_elem? message (offset + i))
block_at_inside message field offset count h = (
  take count (drop offset message),
  block_at-eq message field offset count h,
  omega (arith, length-take count (drop offset message), length-drop offset message),
  λ i k. get_elem?-take count i (drop offset message) k ∙ get_elem?-drop offset i message,
)

block_at_outside :
    (message : List ℕ) (field : String) (offset count : ℕ)
    → length message < offset + count
    → block_at message field offset count
      ≡ err (block_out_of_range field offset count (length message))
unfolding block_at
block_at_outside message field offset count h = ground (arith, length-drop offset message)

-- A block that lies within the message is read whole, byte for byte; any other is refused, with what
-- was declared.
pub block_at_cases :
    (message : List ℕ) (field : String) (offset count : ℕ)
    → ((offset + count ≤ length message)
        × ((block : List ℕ) × (block_at message field offset count ≡ ok block)
            × (length block ≡ count)
            × ((i : ℕ) → i < count → get_elem? block i ≡ get_elem? message (offset + i))))
      ⊎ ((length message < offset + count)
          × (block_at message field offset count
              ≡ err (block_out_of_range field offset count (length message))))
block_at_cases message field offset count = elim (dec_le (offset + count) (length message)) [
  | yes h ↦ inl (h, block_at_inside message field offset count h)
  | no h ↦
      let over : length message < offset + count = omega (arith, h) in
      inr (over, block_at_outside message field offset count over)
]
