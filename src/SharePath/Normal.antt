-- ===== src/SharePath/Normal.antt =====
-- What `SharePath::new` accepts, and that accepting it again changes nothing.
use smb1client_rs.Base.{
  ℕ, ◌≡◌, refl, ◌∙◌, ap, true, false, ◌==◌, [], ◌∷◌, is_empty, Result, ok, err, arith, ok-injective,
  Bool-cases, inl, inr,
}
use smb1client_rs.SharePath.{
  Text, PathError, null_byte, absolute, escapes, slash, backslash, is_whitespace, trim_start,
  trim_end, separator, replace, has_char, starts_with, escapes_share_root, new,
}
use mathlib.Core.Path.{subst}

whitespace_of_slash : (c : ℕ) → (c == slash) ≡ true → is_whitespace (separator c) ≡ is_whitespace c
unfolding is_whitespace separator
whitespace_of_slash c h = ground (arith, h)

separator-is_whitespace : (c : ℕ) → is_whitespace (separator c) ≡ is_whitespace c
unfolding separator
separator-is_whitespace c = elim (Bool-cases (c == slash)) [
  | inl h ↦ whitespace_of_slash c h
  | inr h ↦ rw h refl
]

replace-is_empty : (s : Text) → is_empty (replace s) ≡ is_empty s
unfolding replace
replace-is_empty [] = refl
replace-is_empty (c ∷ s) = refl

trim_start-replace : (s : Text) → trim_start (replace s) ≡ replace (trim_start s)
unfolding trim_start replace
trim_start-replace [] = refl
trim_start-replace (c ∷ s) = rw (separator-is_whitespace c) (ground (arith, trim_start-replace s))

trim_end-replace : (s : Text) → trim_end (replace s) ≡ replace (trim_end s)
unfolding trim_end replace
trim_end-replace [] = refl
trim_end-replace (c ∷ s) =
    rw (separator-is_whitespace c, trim_end-replace s, replace-is_empty (trim_end s)) (ground arith)

trim_start-trim_start : (s : Text) → trim_start (trim_start s) ≡ trim_start s
unfolding trim_start
trim_start-trim_start [] = refl
trim_start-trim_start (c ∷ s) = ground (arith, trim_start-trim_start s)

trim_end-trim_end : (s : Text) → trim_end (trim_end s) ≡ trim_end s
unfolding trim_end
trim_end-trim_end [] = refl
trim_end-trim_end (c ∷ s) = ground (arith, trim_end-trim_end s)

trim_start-trim_end : (s : Text) → trim_start (trim_end s) ≡ trim_end (trim_start s)
unfolding trim_start trim_end
trim_start-trim_end [] = refl
trim_start-trim_end (c ∷ s) = ground (arith, trim_start-trim_end s)

has_char-replace : (s : Text) → has_char slash (replace s) ≡ false
unfolding has_char replace separator
has_char-replace [] = refl
has_char-replace (c ∷ s) = ground (arith, has_char-replace s)

replace_none : (s : Text) → has_char slash s ≡ false → replace s ≡ s
unfolding has_char replace separator
replace_none [] h = refl
replace_none (c ∷ s) h = ground (arith, replace_none s)

-- A path that may go into a request.
pub record IsNormal (s : Text) : Type 0 where
  pub trimmed_start : trim_start s ≡ s
  pub trimmed_end : trim_end s ≡ s
  pub no_slash : has_char slash s ≡ false
  pub no_null : has_char 0 s ≡ false
  pub relative : starts_with backslash s ≡ false
  pub inside : escapes_share_root s ≡ false

new_of_IsNormal : (s : Text) → IsNormal s → new s ≡ ok s
unfolding new
new_of_IsNormal s n =
    rw (n.trimmed_start, n.trimmed_end, replace_none s n.no_slash, n.no_null, n.relative, n.inside)
      refl

pub normalized : Text → Text
normalized path = replace (trim_end (trim_start path))

normalized-trimmed :
    (path : Text)
    → (trim_start (normalized path) ≡ normalized path)
      × (trim_end (normalized path) ≡ normalized path)
unfolding normalized
normalized-trimmed path =
    let u = trim_start path in
    (
      trim_start-replace (trim_end u)
          ∙ ap replace (trim_start-trim_end u ∙ ap trim_end (trim_start-trim_start path)),
      trim_end-replace (trim_end u) ∙ ap replace (trim_end-trim_end u),
    )

normalized-has_char : (path : Text) → has_char slash (normalized path) ≡ false
unfolding normalized
normalized-has_char path = has_char-replace (trim_end (trim_start path))

-- Which of the tests of `new` a path passes, with what it answers.
pub data Verdict (path : Text) : Result PathError Text → Type 0 where
  has_null : has_char 0 (normalized path) ≡ true → Verdict path (err (null_byte (normalized path)))
  is_absolute :
      has_char 0 (normalized path) ≡ false
      → starts_with backslash (normalized path) ≡ true
      → Verdict path (err (absolute (normalized path)))
  leaves :
      has_char 0 (normalized path) ≡ false
      → starts_with backslash (normalized path) ≡ false
      → escapes_share_root (normalized path) ≡ true
      → Verdict path (err (escapes (normalized path)))
  accepted : IsNormal (normalized path) → Verdict path (ok (normalized path))

new_null :
    (path : Text)
    → has_char 0 (normalized path) ≡ true
    → new path ≡ err (null_byte (normalized path))
unfolding new normalized
new_null path h = rw h refl

new_absolute :
    (path : Text)
    → has_char 0 (normalized path) ≡ false
    → starts_with backslash (normalized path) ≡ true
    → new path ≡ err (absolute (normalized path))
unfolding new normalized
new_absolute path h b = rw (h, b) refl

new_leaves :
    (path : Text)
    → has_char 0 (normalized path) ≡ false
    → starts_with backslash (normalized path) ≡ false
    → escapes_share_root (normalized path) ≡ true
    → new path ≡ err (escapes (normalized path))
unfolding new normalized
new_leaves path h b l = rw (h, b, l) refl

new_accepted :
    (path : Text)
    → has_char 0 (normalized path) ≡ false
    → starts_with backslash (normalized path) ≡ false
    → escapes_share_root (normalized path) ≡ false
    → new path ≡ ok (normalized path)
unfolding new normalized
new_accepted path h b l = rw (h, b, l) refl

-- What `SharePath::new` answers, for every path: it is trimmed and its slashes become backslashes, and
-- then refused for a null byte, for being absolute or for escaping the share, in that order, or
-- accepted as it then is, with nothing left to trim, no slash, no null byte and no escape.
pub new-Verdict : (path : Text) → Verdict path (new path)
new-Verdict path = elim (Bool-cases (has_char 0 (normalized path))) [
  | inl h ↦ rw (new_null path h) (has_null h)
  | inr h ↦ elim (Bool-cases (starts_with backslash (normalized path))) [
    | inl b ↦ rw (new_absolute path h b) (is_absolute h b)
    | inr b ↦ elim (Bool-cases (escapes_share_root (normalized path))) [
      | inl l ↦ rw (new_leaves path h b l) (leaves h b l)
      | inr l ↦
          let (start, end) = normalized-trimmed path in
          rw (new_accepted path h b l) (
            accepted (record {
              trimmed_start = start;
              trimmed_end = end;
              no_slash = normalized-has_char path;
              no_null = h;
              relative = b;
              inside = l;
            }))
    ]
  ]
]

accepted_IsNormal :
    (path s : Text) {r : Result PathError Text} → Verdict path r → r ≡ ok s → IsNormal s
accepted_IsNormal path s (has_null h) e = ground (arith, e)
accepted_IsNormal path s (is_absolute h b) e = ground (arith, e)
accepted_IsNormal path s (leaves h b l) e = ground (arith, e)
accepted_IsNormal path s (accepted n) e = subst IsNormal (ok-injective e) n

-- A path that `SharePath::new` has accepted is accepted again, unchanged.
new-new : (path s : Text) → new path ≡ ok s → new s ≡ ok s
new-new path s e = new_of_IsNormal s (accepted_IsNormal path s (new-Verdict path) e)
