-- ===== src/Connection/Track/Buffer.antt =====
-- The buffer of a track: what growing, shrinking and writing leave at each position.
use smb1client_rs.Base.{
  ℕ, zero, suc, ◌+◌, ◌-◌, ◌<◌, ◌≤◌, ◌≡◌, refl, ap, ◌∙◌, List, [], ◌∷◌, ◌++◌, arith, length, take,
  replicate, get_elem?, length-append, length-take, length-replicate,
}
use smb1client_rs.Connection.Track.{resize, overlay, copy_at}

pub length-resize : (n : ℕ) (bs : List ℕ) → length (resize n bs) ≡ n
unfolding resize
length-resize n bs = omega (
  arith,
  length-append (take n bs) (replicate (n - length bs) 0),
  length-take n bs,
  length-replicate {A = ℕ} (n - length bs) 0,
)

get_elem?-append_left {ℓ} :
    {A : Type ℓ} (xs ys : List A) (i : ℕ) → i < length xs → get_elem? (xs ++ ys) i ≡ get_elem? xs i
get_elem?-append_left [] ys i h = elim h [ ]
get_elem?-append_left (x ∷ xs) ys zero h = refl
get_elem?-append_left (x ∷ xs) ys (suc i) h = get_elem?-append_left xs ys i (omega arith)

get_elem?-take {ℓ} :
    {A : Type ℓ} (n : ℕ) (xs : List A) (i : ℕ) → i < n → get_elem? (take n xs) i ≡ get_elem? xs i
get_elem?-take zero xs i h = elim h [ ]
get_elem?-take (suc n) [] i h = refl
get_elem?-take (suc n) (x ∷ xs) zero h = refl
get_elem?-take (suc n) (x ∷ xs) (suc i) h = get_elem?-take n xs i (omega arith)

pub get_elem?-resize :
    (n : ℕ) (bs : List ℕ) (i : ℕ)
    → i < n
    → i < length bs
    → get_elem? (resize n bs) i ≡ get_elem? bs i
unfolding resize
get_elem?-resize n bs i h k =
    get_elem?-append_left (take n bs) (replicate (n - length bs) 0) i
      (omega (arith, length-take n bs))
    ∙ get_elem?-take n bs i h

length-overlay : (bs ps : List ℕ) → length (overlay bs ps) ≡ length bs
unfolding overlay
length-overlay bs [] = refl
length-overlay [] (p ∷ ps) = refl
length-overlay (b ∷ bs) (p ∷ ps) = ap suc (length-overlay bs ps)

pub length-copy_at : (at : ℕ) (ps bs : List ℕ) → length (copy_at at ps bs) ≡ length bs
unfolding copy_at
length-copy_at zero ps bs = length-overlay bs ps
length-copy_at (suc at) ps [] = refl
length-copy_at (suc at) ps (b ∷ bs) = ap suc (length-copy_at at ps bs)

overlay-inside :
    (bs ps : List ℕ) (i : ℕ)
    → i < length ps
    → i < length bs
    → get_elem? (overlay bs ps) i ≡ get_elem? ps i
unfolding overlay
overlay-inside bs [] i h k = elim h [ ]
overlay-inside [] (p ∷ ps) i h k = elim k [ ]
overlay-inside (b ∷ bs) (p ∷ ps) zero h k = refl
overlay-inside (b ∷ bs) (p ∷ ps) (suc i) h k = overlay-inside bs ps i (omega arith) (omega arith)

overlay-past :
    (bs ps : List ℕ) (i : ℕ) → length ps ≤ i → get_elem? (overlay bs ps) i ≡ get_elem? bs i
unfolding overlay
overlay-past bs [] i h = refl
overlay-past [] (p ∷ ps) i h = refl
overlay-past (b ∷ bs) (p ∷ ps) zero h = elim h [ ]
overlay-past (b ∷ bs) (p ∷ ps) (suc i) h = overlay-past bs ps i (omega arith)

-- A copy puts the payload at its displacement.
pub copy_at-inside :
    (at : ℕ) (ps bs : List ℕ) (i : ℕ)
    → i < length ps
    → at + i < length bs
    → get_elem? (copy_at at ps bs) (at + i) ≡ get_elem? ps i
unfolding copy_at
copy_at-inside zero ps bs i h k = rw add-zero' (overlay-inside bs ps i h (omega arith))
  where
    add-zero' : 0 + i ≡ i
    add-zero' = omega arith
copy_at-inside (suc at) ps [] i h k = absurd (omega arith)
copy_at-inside (suc at) ps (b ∷ bs) i h k = rw step (copy_at-inside at ps bs i h (omega arith))
  where
    step : suc at + i ≡ suc (at + i)
    step = omega arith

-- It changes nothing else.
pub copy_at-before :
    (at : ℕ) (ps bs : List ℕ) (i : ℕ) → i < at → get_elem? (copy_at at ps bs) i ≡ get_elem? bs i
unfolding copy_at
copy_at-before zero ps bs i h = elim h [ ]
copy_at-before (suc at) ps [] i h = refl
copy_at-before (suc at) ps (b ∷ bs) zero h = refl
copy_at-before (suc at) ps (b ∷ bs) (suc i) h = copy_at-before at ps bs i (omega arith)

pub copy_at-past :
    (at : ℕ) (ps bs : List ℕ) (i : ℕ)
    → at + length ps ≤ i
    → get_elem? (copy_at at ps bs) i ≡ get_elem? bs i
unfolding copy_at
copy_at-past zero ps bs i h = overlay-past bs ps i (omega arith)
copy_at-past (suc at) ps [] i h = refl
copy_at-past (suc at) ps (b ∷ bs) zero h = absurd (omega arith)
copy_at-past (suc at) ps (b ∷ bs) (suc i) h = copy_at-past at ps bs i (omega arith)

-- Two buffers of one length that agree at each position are one.
pub eq_of_get_elem? :
    (xs ys : List ℕ)
    → length xs ≡ length ys
    → ((i : ℕ) → i < length xs → get_elem? xs i ≡ get_elem? ys i)
    → xs ≡ ys
eq_of_get_elem? [] [] e h = refl
eq_of_get_elem? [] (y ∷ ys) e h = absurd (omega arith)
eq_of_get_elem? (x ∷ xs) [] e h = absurd (omega arith)
eq_of_get_elem? (x ∷ xs) (y ∷ ys) e h =
    ground (arith, h 0, eq_of_get_elem? xs ys (omega arith) (λ i k. h (suc i) (omega arith)))

pub take_all {ℓ} : {A : Type ℓ} (n : ℕ) (xs : List A) → length xs ≤ n → take n xs ≡ xs
take_all zero [] h = refl
take_all zero (x ∷ xs) h = absurd (omega (arith, h))
take_all (suc n) [] h = refl
take_all (suc n) (x ∷ xs) h = ap (◌∷◌ x) (take_all n xs (omega (arith, h)))

take-overlay : (ps bs : List ℕ) → length ps ≤ length bs → take (length ps) (overlay bs ps) ≡ ps
unfolding overlay
take-overlay [] bs h = refl
take-overlay (p ∷ ps) [] h = absurd (omega (arith, h))
take-overlay (p ∷ ps) (b ∷ bs) h = ap (◌∷◌ p) (take-overlay ps bs (omega (arith, h)))

-- Up to the end of what was written, the bytes are those before it and what was written.
pub take-copy_at :
    (at : ℕ) (ps bs : List ℕ)
    → at + length ps ≤ length bs
    → take (at + length ps) (copy_at at ps bs) ≡ take at bs ++ ps
unfolding copy_at
take-copy_at zero ps bs h =
    let e : 0 + length ps ≡ length ps = omega arith in rw e (take-overlay ps bs (omega (arith, h)))
take-copy_at (suc at) ps [] h = absurd (omega (arith, h))
take-copy_at (suc at) ps (b ∷ bs) h =
    let e : suc at + length ps ≡ suc (at + length ps) = omega arith in
    rw e (ap (◌∷◌ b) (take-copy_at at ps bs (omega (arith, h))))
