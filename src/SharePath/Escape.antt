-- ===== src/SharePath/Escape.antt =====
-- When `escapes_share_root` refuses, and that the paths made of an accepted path stay inside.
use smb1client_rs.Base.{
  ℕ, zero, suc, ◌+◌, ◌≤◌, ◌≡◌, ◌≢◌, ◌↔◌, refl, sym, ◌∙◌, ap, true, false, ◌==◌, List, [], ◌∷◌, ◌++◌,
  map, take, is_empty, arith, Bool-cases, inl, inr,
}
use smb1client_rs.SharePath.{
  Text, backslash, has_char, ends_with, push_front, split, Component, stays, ascends, descends,
  component, walks_out, escapes_share_root, search_pattern, join,
}

-- How many components go up, and how many go down.
abbrev pub ascents : List Component → ℕ
ascents [] = 0
ascents (stays ∷ cs) = ascents cs
ascents (ascends ∷ cs) = ascents cs + 1
ascents (descends ∷ cs) = ascents cs

abbrev pub descents : List Component → ℕ
descents [] = 0
descents (stays ∷ cs) = descents cs
descents (ascends ∷ cs) = descents cs
descents (descends ∷ cs) = descents cs + 1

stays_inside :
    (d : ℕ) (cs : List Component)
    → walks_out d cs ≡ false
    → (k : ℕ) → ascents (take k cs) ≤ d + descents (take k cs)
unfolding walks_out
stays_inside d cs h zero = omega arith
stays_inside d [] h (suc k) = omega arith
stays_inside d (stays ∷ cs) h (suc k) = stays_inside d cs h k
stays_inside zero (ascends ∷ cs) h (suc k) = ground (arith, h)
stays_inside (suc d) (ascends ∷ cs) h (suc k) = omega (arith, stays_inside d cs h k)
stays_inside d (descends ∷ cs) h (suc k) = omega (arith, stays_inside (d + 1) cs h k)

inside_stays :
    (d : ℕ) (cs : List Component)
    → ((k : ℕ) → ascents (take k cs) ≤ d + descents (take k cs))
    → walks_out d cs ≡ false
unfolding walks_out
inside_stays d [] h = refl
inside_stays d (stays ∷ cs) h = inside_stays d cs (λ k. h (suc k))
inside_stays zero (ascends ∷ cs) h = absurd (omega (arith, h 1))
inside_stays (suc d) (ascends ∷ cs) h = inside_stays d cs (λ k. omega (arith, h (suc k)))
inside_stays d (descends ∷ cs) h = inside_stays (d + 1) cs (λ k. omega (arith, h (suc k)))

-- A path does not escape the share exactly where no prefix of its components has more of them go up
-- than go down.
pub escapes_share_root_iff :
    (path : Text)
    → (escapes_share_root path ≡ false) ↔ (
        (k : ℕ)
        → ascents (take k (map component (split path)))
          ≤ descents (take k (map component (split path))))
unfolding escapes_share_root
escapes_share_root_iff path =
    let cs = map component (split path) in
    (λ h k. omega (arith, stays_inside 0 cs h k), λ h. inside_stays 0 cs (λ k. omega (arith, h k)))

walks_out-append :
    (d : ℕ) (cs ds : List Component)
    → walks_out d cs ≡ false
    → ascents ds ≡ 0
    → walks_out d (cs ++ ds) ≡ false
unfolding walks_out
walks_out-append d [] [] h a = refl
walks_out-append d [] (stays ∷ ds) h a = walks_out-append d [] ds refl a
walks_out-append d [] (ascends ∷ ds) h a = absurd (omega (arith, a))
walks_out-append d [] (descends ∷ ds) h a = walks_out-append (d + 1) [] ds refl a
walks_out-append d (stays ∷ cs) ds h a = walks_out-append d cs ds h a
walks_out-append zero (ascends ∷ cs) ds h a = ground (arith, h)
walks_out-append (suc d) (ascends ∷ cs) ds h a = walks_out-append d cs ds h a
walks_out-append d (descends ∷ cs) ds h a = walks_out-append (d + 1) cs ds h a

walks_out-prefix :
    (d : ℕ) (cs ds : List Component) → walks_out d (cs ++ ds) ≡ false → walks_out d cs ≡ false
unfolding walks_out
walks_out-prefix d [] ds h = refl
walks_out-prefix d (stays ∷ cs) ds h = walks_out-prefix d cs ds h
walks_out-prefix zero (ascends ∷ cs) ds h = h
walks_out-prefix (suc d) (ascends ∷ cs) ds h = walks_out-prefix d cs ds h
walks_out-prefix d (descends ∷ cs) ds h = walks_out-prefix (d + 1) cs ds h

push_front-append :
    (c : ℕ) (ps qs : List Text) → ps ≢ [] → push_front c (ps ++ qs) ≡ push_front c ps ++ qs
push_front-append c [] qs h = absurd (h refl)
push_front-append c (p ∷ ps) qs h = refl

push_front_full : (c : ℕ) (ps : List Text) → push_front c ps ≢ []
push_front_full c [] h = ground (arith, h)
push_front_full c (p ∷ ps) h = ground (arith, h)

split_full : (s : Text) → split s ≢ []
unfolding split
split_full [] h = ground (arith, h)
split_full (c ∷ s) h = elim (Bool-cases (c == backslash)) [
  | inl e ↦ ground (arith, h, e)
  | inr e ↦ push_front_full c (split s) (ground (arith, h, e))
]

split-append : (s t : Text) → split (s ++ (backslash ∷ t)) ≡ split s ++ split t
unfolding split
split-append [] t = ground arith
split-append (c ∷ s) t = elim (Bool-cases (c == backslash)) [
  | inl e ↦ rw (e, split-append s t) refl
  | inr e ↦ rw (e, split-append s t) (push_front-append c (split s) (split t) (split_full s))
]

map-append : (ps qs : List Text) → map component (ps ++ qs) ≡ map component ps ++ map component qs
map-append [] qs = refl
map-append (p ∷ ps) qs = ap (λ r. component p ∷ r) (map-append ps qs)

split_none : (s : Text) → has_char backslash s ≡ false → split s ≡ s ∷ []
unfolding split has_char
split_none [] h = refl
split_none (c ∷ s) h = ground (arith, h, split_none s)

flat : (c : Component) → c ≢ ascends → ascents (c ∷ []) ≡ 0
flat stays n = refl
flat ascends n = absurd (n refl)
flat descends n = refl

-- One component that is not `..` adds no way out.
inside-append :
    (s t : Text)
    → escapes_share_root s ≡ false
    → has_char backslash t ≡ false
    → component t ≢ ascends
    → escapes_share_root (s ++ (backslash ∷ t)) ≡ false
unfolding escapes_share_root
inside-append s t h b a =
    rw (split-append s t, split_none t b, map-append (split s) (t ∷ []))
      (walks_out-append 0 (map component (split s)) (component t ∷ []) h (flat (component t) a))

last_backslash :
    (s : Text) → ends_with backslash s ≡ true → (t : Text) × (s ≡ t ++ (backslash ∷ []))
unfolding ends_with
last_backslash [] h = ground (arith, h)
last_backslash (c ∷ []) h = ([], ground (arith, h))
last_backslash (c ∷ d ∷ s) h = let (t, e) = last_backslash (d ∷ s) h in (c ∷ t, ap (λ r. c ∷ r) e)

append_assoc : (s : Text) (t u : Text) → (s ++ t) ++ u ≡ s ++ (t ++ u)
append_assoc [] t u = refl
append_assoc (c ∷ s) t u = ap (λ r. c ∷ r) (append_assoc s t u)

without_last :
    (r : Text) → escapes_share_root (r ++ (backslash ∷ [])) ≡ false → escapes_share_root r ≡ false
unfolding escapes_share_root
without_last r k = walks_out-prefix 0 (map component (split r)) (map component (split [])) (
    ap (walks_out 0)
      (sym (ap (map component) (split-append r []) ∙ map-append (split r) (split [])))
    ∙ k)

-- A path that ends in a separator, with a component after it.
after-separator :
    (s t : Text)
    → escapes_share_root s ≡ false
    → ends_with backslash s ≡ true
    → has_char backslash t ≡ false
    → component t ≢ ascends
    → escapes_share_root (s ++ t) ≡ false
after-separator s t h b n a =
    let (r, e) = last_backslash s b in
    rw (e, append_assoc r (backslash ∷ []) t)
      (inside-append r t (without_last r (ap escapes_share_root (sym e) ∙ h)) n a)

alone :
    (t : Text) → has_char backslash t ≡ false → component t ≢ ascends → escapes_share_root t ≡ false
unfolding escapes_share_root walks_out
alone t n a =
    rw (split_none t n) (walks_out-append 0 [] (component t ∷ []) refl (flat (component t) a))

-- A directory that stays inside the share, joined to an entry's name that has no separator and is not
-- `..`, stays inside.
pub escapes-join :
    (directory name : Text)
    → escapes_share_root directory ≡ false
    → has_char backslash name ≡ false
    → component name ≢ ascends
    → escapes_share_root (join directory name) ≡ false
unfolding join
escapes-join directory name h n a = elim (Bool-cases (is_empty directory)) [
  | inl e ↦ rw e (alone name n a)
  | inr e ↦ elim (Bool-cases (ends_with backslash directory)) [
    | inl b ↦ rw (e, b) (after-separator directory name h b n a)
    | inr b ↦ rw (e, b) (inside-append directory name h n a)
  ]
]

star_flat : has_char backslash (0x2A ∷ []) ≡ false
unfolding has_char
star_flat = refl

star_down : component (0x2A ∷ []) ≢ ascends
unfolding component
star_down h = ground (arith, h)

root_pattern : escapes_share_root (backslash ∷ 0x2A ∷ []) ≡ false
unfolding escapes_share_root split component walks_out
root_pattern = refl

-- The search pattern of a directory that stays inside the share stays inside.
escapes-search_pattern :
    (directory : Text)
    → escapes_share_root directory ≡ false
    → escapes_share_root (search_pattern directory) ≡ false
unfolding search_pattern
escapes-search_pattern directory h = elim (Bool-cases (is_empty directory)) [
  | inl e ↦ rw e (root_pattern)
  | inr e ↦ elim (Bool-cases (ends_with backslash directory)) [
    | inl b ↦ rw (e, b) (after-separator directory (0x2A ∷ []) h b star_flat star_down)
    | inr b ↦ rw (e, b) (inside-append directory (0x2A ∷ []) h star_flat star_down)
  ]
]
