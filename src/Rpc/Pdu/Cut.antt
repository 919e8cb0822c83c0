-- ===== src/Rpc/Pdu/Cut.antt =====
-- What `PduStream::next` does to the bytes that are pending, and that more bytes behind them change nothing.
use smb1client_rs.Base.{
  ℕ, zero, suc, ◌+◌, ◌≤◌, ◌<◌, ◌≡◌, refl, ◌∙◌, ap, true, false, ltb, none, some, List, [], ◌∷◌,
  ◌++◌, length, length-append, length-drop, take, drop, get_or, from_le_bytes, arith, ok, err,
  Bool-cases, inl, inr,
}
use native.Mathlib.Decide.{dec_le}
use smb1client_rs.Rpc.Pdu.{PduError, PduStream, push, next, header_len, fragment_length_too_small}

get_or-append : (xs ys : List ℕ) (i d : ℕ) → i < length xs → get_or (xs ++ ys) i d ≡ get_or xs i d
get_or-append [] ys i d h = absurd (omega (arith, h))
get_or-append (x ∷ xs) ys zero d h = refl
get_or-append (x ∷ xs) ys (suc i) d h = get_or-append xs ys i d (omega (arith, h))

take-append_le : (n : ℕ) (xs ys : List ℕ) → n ≤ length xs → take n (xs ++ ys) ≡ take n xs
take-append_le zero xs ys h = refl
take-append_le (suc n) [] ys h = absurd (omega (arith, h))
take-append_le (suc n) (x ∷ xs) ys h = ap (λ t. x ∷ t) (take-append_le n xs ys (omega (arith, h)))

drop-append_le : (n : ℕ) (xs ys : List ℕ) → n ≤ length xs → drop n (xs ++ ys) ≡ drop n xs ++ ys
drop-append_le zero xs ys h = refl
drop-append_le (suc n) [] ys h = absurd (omega (arith, h))
drop-append_le (suc n) (x ∷ xs) ys h = drop-append_le n xs ys (omega (arith, h))

-- The three outcomes of `next`. Where it waits nothing is taken; where it fails or cuts a unit off, it
-- does the same with more bytes behind.
pub data Cut (s : PduStream) : Type 0 where
  waits : next s ≡ ok (none, s) → Cut s
  fails : (e : PduError) → next s ≡ err e → ((b : List ℕ) → next (push s b) ≡ err e) → Cut s
  cuts :
      (fragment rest : List ℕ)
      → next s ≡ ok (some fragment, record { pending = rest })
      → length rest + header_len ≤ length s.pending
      → ((b : List ℕ) → next (push s b) ≡ ok (some fragment, record { pending = rest ++ b }))
      → Cut s

-- The length that a unit declares, in its ninth and tenth bytes.
abbrev pub declared : List ℕ → ℕ
declared pending = from_le_bytes (get_or pending 8 0) (get_or pending 9 0)

pub declared-append : (p b : List ℕ) → header_len ≤ length p → declared (p ++ b) ≡ declared p
declared-append p b h =
    rw (get_or-append p b 8 0 (omega (arith, h)), get_or-append p b 9 0 (omega (arith, h))) refl

next_short : (s : PduStream) → length s.pending < header_len → next s ≡ ok (none, s)
unfolding next
next_short s h = rw (next, short) refl
  where
    short : ltb (length s.pending) header_len ≡ true
    short = ground (arith, h)

next_small :
    (s : PduStream)
    → header_len ≤ length s.pending
    → declared s.pending < header_len
    → next s ≡ err (fragment_length_too_small (declared s.pending))
unfolding next
next_small s h k = rw (next, long, small) refl
  where
    long : ltb (length s.pending) header_len ≡ false
    long = ground (arith, h)

    small : ltb (declared s.pending) header_len ≡ true
    small = ground (arith, k)

next_waits :
    (s : PduStream)
    → header_len ≤ declared s.pending
    → length s.pending < declared s.pending
    → next s ≡ ok (none, s)
unfolding next
next_waits s k l = elim (Bool-cases (ltb (length s.pending) header_len)) [
  | inl short ↦ rw (next, short) refl
  | inr long ↦ rw (next, long, large, partly) refl
]
  where
    large : ltb (declared s.pending) header_len ≡ false
    large = ground (arith, k)

    partly : ltb (length s.pending) (declared s.pending) ≡ true
    partly = ground (arith, l)

pub next_takes :
    (s : PduStream)
    → header_len ≤ declared s.pending
    → declared s.pending ≤ length s.pending
    → next s
      ≡ ok (
        some (take (declared s.pending) s.pending),
        record { pending = drop (declared s.pending) s.pending },
      )
unfolding next
next_takes s k l = rw (next, long, large, whole) refl
  where
    long : ltb (length s.pending) header_len ≡ false
    long = ground (arith, k, l)

    large : ltb (declared s.pending) header_len ≡ false
    large = ground (arith, k)

    whole : ltb (length s.pending) (declared s.pending) ≡ false
    whole = ground (arith, l)

-- The same with more bytes behind.
next_takes_more :
    (s : PduStream) (b : List ℕ)
    → header_len ≤ declared s.pending
    → declared s.pending ≤ length s.pending
    → next (push s b)
      ≡ ok (
        some (take (declared s.pending) s.pending),
        record { pending = drop (declared s.pending) s.pending ++ b },
      )
next_takes_more s b k l =
    let same = declared-append s.pending b (omega (arith, k, l)) in
    next_takes (push s b) (rw same k) (rw (same, length-append s.pending b) (omega (arith, l)))
    ∙ rw
        (
          same,
          take-append_le (declared s.pending) s.pending b l,
          drop-append_le (declared s.pending) s.pending b l,
        )
        refl

pub next-Cut : (s : PduStream) → Cut s
next-Cut s = elim (dec_le header_len (length s.pending)) [
  | no h ↦ waits (next_short s (omega (arith, h)))
  | yes h ↦ elim (dec_le header_len (declared s.pending)) [
    | no k ↦
        let small : declared s.pending < header_len = omega (arith, k) in
        fails (fragment_length_too_small (declared s.pending)) (next_small s h small)
          (λ b. next_small_more b h small)
    | yes k ↦ elim (dec_le (declared s.pending) (length s.pending)) [
      | no l ↦ waits (next_waits s k (omega (arith, l)))
      | yes l ↦
          cuts (take (declared s.pending) s.pending) (drop (declared s.pending) s.pending)
            (next_takes s k l) (omega (arith, length-drop (declared s.pending) s.pending, k, l))
            (λ b. next_takes_more s b k l)
    ]
  ]
]
  where
    next_small_more :
        (b : List ℕ)
        → header_len ≤ length s.pending
        → declared s.pending < header_len
        → next (push s b) ≡ err (fragment_length_too_small (declared s.pending))
    next_small_more b h small =
        let same = declared-append s.pending b h in
        next_small (push s b) (omega (arith, length-append s.pending b, h)) (rw same small)
        ∙ ap (λ n. err (fragment_length_too_small n)) same
