-- ===== src/Wire/Find/Walk.antt =====
-- The walk of directory entries ends, and gives the entries of a chain of the announced length.
use smb1client_rs.Base.{
  ℕ, zero, suc, ◌+◌, ◌≤◌, ◌<◌, ◌≡◌, ◌↔◌, ◌⊎◌, inl, inr, refl, sym, ◌∙◌, ap, true, false, ◌==◌, ltb,
  none, some, List, [], ◌∷◌, length, arith, Result, ok, err, Bool-cases,
}
use mathlib.Core.Path.{subst}
use smb1client_rs.Wire.Error.{WireError, entry_offset_too_small, entry_count_mismatch}
use smb1client_rs.Wire.Find.{
  EntryWords, DirectoryEntry, Walked, min_entry_len, entry_at, with_entry, walk_round, walk,
  counted, walk_entries,
}

-- The entries of a chain from an offset on: each is read where the one before it says, at least 94 bytes
-- further, and the chain ends with an entry that names no next one, or past the last byte.
abbrev pub Chain :
    (List ℕ → Result WireError EntryWords)
    → List ℕ
    → (offset position : ℕ) → List DirectoryEntry
    → Type 0
Chain read bytes offset position [] = length bytes ≤ offset
Chain read bytes offset position (e ∷ entries) =
    (offset < length bytes)
    × ((next : ℕ) × (entry_at read bytes offset position ≡ ok (next, e))
        × ((next ≡ 0) × (entries ≡ [])
            ⊎ (min_entry_len ≤ next) × Chain read bytes (offset + next) (suc position) entries))

abbrev Ends : Walked → Type 0
Ends w = (r : Result WireError (List DirectoryEntry)) × (w ≡ some r)

with_entry-Ends : (e : DirectoryEntry) (w : Walked) → Ends w → Ends (with_entry e w)
with_entry-Ends e none (r, q) = cc
with_entry-Ends e (some (err fault)) k = (err fault, refl)
with_entry-Ends e (some (ok entries)) k = (ok (e ∷ entries), refl)

walk_round-Ends :
    (offset : ℕ) (walk : ℕ → Walked)
    → ((next : ℕ) → min_entry_len ≤ next → Ends (walk (offset + next)))
    → (x : Result WireError (ℕ × DirectoryEntry)) → Ends (walk_round offset walk x)
walk_round-Ends offset walk h (err fault) = (err fault, refl)
walk_round-Ends offset walk h (ok (next, e)) = elim (Bool-cases (next == 0)) [
  | inl last ↦ rw last (ok (e ∷ []), refl)
  | inr going ↦ elim (Bool-cases (ltb next min_entry_len)) [
    | inl small ↦ rw (going, small) (_, refl)
    | inr far ↦
        rw (going, far) (with_entry-Ends e (walk (offset + next)) (h next (ground (arith, far))))
  ]
]

walk-Ends :
    (fuel : ℕ) (read : List ℕ → Result WireError EntryWords) (bytes : List ℕ) (offset position : ℕ)
    → length bytes < offset + fuel
    → 0 < fuel
    → Ends (walk fuel read bytes offset position)
unfolding walk
walk-Ends zero read bytes offset position h k = absurd (omega (arith, k))
walk-Ends (suc fuel) read bytes offset position h k =
    elim (Bool-cases (ltb offset (length bytes))) [
      | inl within ↦
          let more : offset < length bytes = ground (arith, within) in
          rw within (
            walk_round-Ends offset (λ o. walk fuel read bytes o (suc position))
              (λ next far.
                walk-Ends fuel read bytes (offset + next) (suc position) (omega (arith, h, far))
                  (omega (arith, h, more)))
              (entry_at read bytes offset position))
      | inr past ↦ rw past (ok [], refl)
    ]

with_entry-ok :
    (e : DirectoryEntry) (w : Walked) (es : List DirectoryEntry)
    → with_entry e w ≡ some (ok es)
    → (rest : List DirectoryEntry) × (w ≡ some (ok rest)) × (es ≡ e ∷ rest)
with_entry-ok e none es q = cc
with_entry-ok e (some (err fault)) es q = cc
with_entry-ok e (some (ok entries)) es q = (entries, refl, cc)

-- What is walked is a chain.
walk-Chain :
    (fuel : ℕ) (read : List ℕ → Result WireError EntryWords) (bytes : List ℕ) (offset position : ℕ)
    (es : List DirectoryEntry)
    → walk fuel read bytes offset position ≡ some (ok es)
    → Chain read bytes offset position es
unfolding walk
walk-Chain zero read bytes offset position es q = cc
walk-Chain (suc fuel) read bytes offset position es q =
    elim (Bool-cases (ltb offset (length bytes))) [
      | inl within ↦
          round (ground (arith, within))
            (λ next rest. walk-Chain fuel read bytes (offset + next) (suc position) rest)
            (entry_at read bytes offset position) refl (sym (rw within refl) ∙ q)
      | inr past ↦ done (ground (arith, past)) es (sym (rw past refl) ∙ q)
    ]
  where
    done :
        length bytes ≤ offset
        → (es : List DirectoryEntry) → ◌≡◌ {A = Walked} (some (ok [])) (some (ok es))
        → Chain read bytes offset position es
    done h [] q = h
    done h (e ∷ es) q = cc

    go :
        offset < length bytes
        → (next : ℕ) (e : DirectoryEntry) → entry_at read bytes offset position ≡ ok (next, e)
        → (es rest : List DirectoryEntry) → es ≡ e ∷ rest
        → ((next ≡ 0) × (rest ≡ [])
            ⊎ (min_entry_len ≤ next) × Chain read bytes (offset + next) (suc position) rest)
        → Chain read bytes offset position es
    go h next e p es rest s k = subst (Chain read bytes offset position) (sym s) (h, (next, p, k))

    round :
        offset < length bytes
        → ((next : ℕ) (rest : List DirectoryEntry)
            → walk fuel read bytes (offset + next) (suc position) ≡ some (ok rest)
            → Chain read bytes (offset + next) (suc position) rest)
        → (x : Result WireError (ℕ × DirectoryEntry)) → entry_at read bytes offset position ≡ x
        → walk_round offset (λ o. walk fuel read bytes o (suc position)) x ≡ some (ok es)
        → Chain read bytes offset position es
    round h ih (err fault) p q = cc
    round h ih (ok (next, e)) p q = elim (Bool-cases (next == 0)) [
      | inl last ↦
          go h next e p es [] (one_entry e (sym (rw last refl) ∙ q))
            (inl (ground (arith, last), refl))
      | inr going ↦ elim (Bool-cases (ltb next min_entry_len)) [
        | inl small ↦ absurd (
            no_entry (entry_offset_too_small offset next min_entry_len)
              (sym (rw (going, small) refl) ∙ q))
        | inr far ↦
            let (rest, w, s) =
              with_entry-ok e (walk fuel read bytes (offset + next) (suc position)) es
                (sym (rw (going, far) refl) ∙ q) in
            go h next e p es rest s (inr (ground (arith, far), ih next rest w))
      ]
    ]
      where
        one_entry :
            (e : DirectoryEntry)
            → ◌≡◌ {A = Walked} (some (ok (e ∷ []))) (some (ok es))
            → es ≡ e ∷ []
        one_entry e q = cc

        no_entry : (fault : WireError) → ◌≡◌ {A = Walked} (some (err fault)) (some (ok es)) → ⊥
        no_entry fault q = cc

-- A chain is what is walked.
Chain-walk :
    (fuel : ℕ) (read : List ℕ → Result WireError EntryWords) (bytes : List ℕ) (offset position : ℕ)
    (es : List DirectoryEntry)
    → Chain read bytes offset position es
    → length bytes < offset + fuel
    → 0 < fuel
    → walk fuel read bytes offset position ≡ some (ok es)
unfolding walk
Chain-walk zero read bytes offset position es c h k = absurd (omega (arith, k))
Chain-walk (suc fuel) read bytes offset position [] c h k = rw past refl
  where
    past : ltb offset (length bytes) ≡ false
    past = ground (arith, c)
Chain-walk (suc fuel) read bytes offset position (e ∷ es) (more, (next, p, inl (last, none_left))) h
      k =
    rw (within, p, zero_next) (ap (λ rest. some (ok (e ∷ rest))) (sym none_left))
  where
    within : ltb offset (length bytes) ≡ true
    within = ground (arith, more)

    zero_next : (next == 0) ≡ true
    zero_next = ground (arith, last)
Chain-walk (suc fuel) read bytes offset position (e ∷ es) (more, (next, p, inr (far, c))) h k =
    rw
      (
        within,
        p,
        going,
        enough,
        Chain-walk fuel read bytes (offset + next) (suc position) es c (omega (arith, h, far))
            (omega (arith, h, more)),
      )
      refl
  where
    within : ltb offset (length bytes) ≡ true
    within = ground (arith, more)

    going : (next == 0) ≡ false
    going = ground (arith, far)

    enough : ltb next min_entry_len ≡ false
    enough = ground (arith, far)

counted-ok :
    (count : ℕ) (w : Walked) (es : List DirectoryEntry)
    → counted count w ≡ some (ok es)
    → (w ≡ some (ok es)) × (length es ≡ count)
counted-ok count none es q = cc
counted-ok count (some (err fault)) es q = cc
counted-ok count (some (ok entries)) es q = elim (Bool-cases (length entries == count)) [
  | inl same ↦
      let e : ◌≡◌ {A = Walked} (some (ok entries)) (some (ok es)) = sym (rw same refl) ∙ q in
      let s : entries ≡ es = inside e in (e, ap length (sym s) ∙ ground (arith, same))
  | inr other ↦
      absurd (no_entries (entry_count_mismatch (length entries) count) (sym (rw other refl) ∙ q))
]
  where
    inside : ◌≡◌ {A = Walked} (some (ok entries)) (some (ok es)) → entries ≡ es
    inside q = cc

    no_entries : (fault : WireError) → ◌≡◌ {A = Walked} (some (err fault)) (some (ok es)) → ⊥
    no_entries fault q = cc

counted-Ends : (count : ℕ) (w : Walked) → Ends w → Ends (counted count w)
counted-Ends count none (r, q) = cc
counted-Ends count (some (err fault)) k = (err fault, refl)
counted-Ends count (some (ok entries)) k = elim (Bool-cases (length entries == count)) [
  | inl same ↦ rw same (_, refl)
  | inr other ↦ rw other (_, refl)
]

counted_same : (es : List DirectoryEntry) → counted (length es) (some (ok es)) ≡ some (ok es)
counted_same es = rw same refl
  where
    same : (length es == length es) ≡ true
    same = ground arith

-- Whatever the bytes, the count and the reading of the fixed fields are, the walk ends, and it gives
-- exactly the entries of the chain that begins at the first byte, if there is one of as many entries as
-- the reply announces.
pub walk_entries_iff :
    (read : List ℕ → Result WireError EntryWords) (bytes : List ℕ) (count : ℕ)
    → ((r : Result WireError (List DirectoryEntry)) × (walk_entries read bytes count ≡ some r))
      × ((es : List DirectoryEntry)
          → (walk_entries read bytes count ≡ some (ok es))
            ↔ (Chain read bytes 0 0 es × (length es ≡ count)))
unfolding walk_entries
walk_entries_iff read bytes count = (
  counted-Ends count (walk (suc (length bytes)) read bytes 0 0)
      (walk-Ends (suc (length bytes)) read bytes 0 0 (omega arith) (omega arith)),
  λ es. (walked es, chained es),
)
  where
    walked :
        (es : List DirectoryEntry)
        → counted count (walk (suc (length bytes)) read bytes 0 0) ≡ some (ok es)
        → Chain read bytes 0 0 es × (length es ≡ count)
    walked es q =
        let (w, n) = counted-ok count (walk (suc (length bytes)) read bytes 0 0) es q in
        (walk-Chain (suc (length bytes)) read bytes 0 0 es w, n)

    chained :
        (es : List DirectoryEntry)
        → Chain read bytes 0 0 es × (length es ≡ count)
        → counted count (walk (suc (length bytes)) read bytes 0 0) ≡ some (ok es)
    chained es (c, n) =
        rw (Chain-walk (suc (length bytes)) read bytes 0 0 es c (omega arith) (omega arith), sym n)
          (counted_same es)
