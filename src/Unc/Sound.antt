-- ===== src/Unc/Sound.antt =====
-- What the constructors and the parsers accept: a host and a share that may go on the wire, and a port
-- that can be dialled.
use smb1client_rs.Base.{
  ℕ, ◌<◌, ◌≡◌, refl, sym, ◌∙◌, Bool, true, false, not, ◌==◌, ◌||◌, Option, none, some, [], ◌∷◌,
  is_empty, arith, Bool-cases, inl, inr, ok, ok_or, guard, ◌>>=◌, ◌>>◌, >>=-eq-ok, ok-injective,
  if◌then◌else◌,
}
use smb1client_rs.SharePath.{Text, backslash, has_char, starts_with}
use smb1client_rs.Unc.{
  Server, UncPath, port_zero, not_a_port, default_port, colon, open_bracket, close_bracket,
  validate_host, validate_share, new_server, digit_more, parse_digits, parse_u16, strip_plus,
  parse_server, new_unc, parse_unc, unc_to_string, rsplit_once, split_once, strip_prefix,
  strip_suffix, no_prefix, names_no_share,
}
use mathlib.Core.Path.{subst}
use smb1client_rs.Unc.RoundTrip.{IsHost, IsServer, IsShare, parse_unc-unc_to_string}

guard-true : {E : Type 0} (test : Bool) (fault : E) → guard test fault ≡ ok tt → test ≡ true
guard-true true fault e = refl
guard-true false fault e = cc

validate_host_sound : (host : Text) → validate_host host ≡ ok tt → IsHost host
unfolding validate_host
validate_host_sound host e = record {
  some_char = ground (arith, e);
  no_open = ground (arith, e);
  no_close = ground (arith, e);
  no_colon = ground (arith, e);
  no_bad = ground (arith, e);
}

validate_share_sound : (share : Text) → validate_share share ≡ ok tt → IsShare share
unfolding validate_share
validate_share_sound share e = record {
  some_char = ground (arith, e);
  no_null = ground (arith, e);
  no_backslash = ground (arith, e);
  no_slash = ground (arith, e);
}

pub new_server-IsServer :
    (host : Text) (port : ℕ) (s : Server) → port < 65_536 → new_server host port ≡ ok s → IsServer s
unfolding new_server
new_server-IsServer host port s h e =
    let (u, v, rest) =
      >>=-eq-ok (validate_host host)
        (λ done. (guard (not (port == 0)) port_zero >> ok (record { host = host; port = port })))
        e in
    let (w, some_port, same) =
      >>=-eq-ok (guard (not (port == 0)) port_zero)
        (λ done. ok (record { host = host; port = port })) rest in
    subst IsServer (ok-injective same) (record {
      is_host = validate_host_sound host v;
      dialled = ground (arith, guard-true (not (port == 0)) port_zero some_port);
      small = h;
    })

digit_more_small : (n c k : ℕ) → digit_more n c ≡ some k → k < 65_536
digit_more_small n c k e = ground (arith, e)

parse_digits_small :
    (n : ℕ) (t : Text) (m : ℕ) → n < 65_536 → parse_digits n t ≡ some m → m < 65_536
unfolding parse_digits
parse_digits_small n [] m h e = ground (arith, h, e)
parse_digits_small n (c ∷ t) m h e =
    rest (λ k. parse_digits_small k t m) (digit_more n c) (digit_more_small n c) e
  where
    rest :
        ((k : ℕ) → k < 65_536 → parse_digits k t ≡ some m → m < 65_536)
        → (o : Option ℕ) → ((k : ℕ) → o ≡ some k → k < 65_536)
        → elim o [ none ↦ none | some k ↦ parse_digits k t ] ≡ some m
        → m < 65_536
    rest ih none small q = cc
    rest ih (some k) small q = ih k (small k refl) q

parse_u16_small : (t : Text) (m : ℕ) → parse_u16 t ≡ some m → m < 65_536
unfolding parse_u16
parse_u16_small t m e = elim (Bool-cases (is_empty (strip_plus t))) [
  | inl none_left ↦ absurd (some-none (sym e ∙ rw (parse_u16, none_left) refl))
  | inr digit ↦
      parse_digits_small 0 (strip_plus t) m (omega arith) (sym (rw (parse_u16, digit) refl) ∙ e)
]
  where
    some-none : ◌≡◌ {A = Option ℕ} (some m) none → ⊥
    some-none q = cc

-- A server that is parsed is one that its constructor accepts, whatever the text is.
pub parse_server-IsServer : (t : Text) (s : Server) → parse_server t ≡ ok s → IsServer s
unfolding parse_server
parse_server-IsServer t s e =
    elim (Bool-cases (starts_with open_bracket t || has_char close_bracket t)) [
      | inl literal ↦
          new_server-IsServer t default_port s (omega arith)
            (sym (rw (parse_server, literal) refl) ∙ e)
      | inr plain ↦ by_colon (rsplit_once colon t) (sym (rw (parse_server, plain) refl) ∙ e)
    ]
  where
    by_port :
        (host port : Text) (o : Option ℕ)
        → ((m : ℕ) → o ≡ some m → m < 65_536)
        → (ok_or o (not_a_port port) >>= new_server host) ≡ ok s
        → IsServer s
    by_port host port none small q = cc
    by_port host port (some m) small q = new_server-IsServer host m s (small m refl) q

    by_colon :
        (o : Option (Text × Text))
        → elim o [
          | none ↦ new_server t default_port
          | some (host, port) ↦
              if has_char colon host
              then new_server t default_port
              else (ok_or (parse_u16 port) (not_a_port port) >>= new_server host)
        ]
          ≡ ok s
        → IsServer s
    by_colon none q = new_server-IsServer t default_port s (omega arith) q
    by_colon (some (host, port)) q = elim (Bool-cases (has_char colon host)) [
      | inl address ↦ new_server-IsServer t default_port s (omega arith) (sym (rw address refl) ∙ q)
      | inr one ↦ by_port host port (parse_u16 port) (parse_u16_small port) (sym (rw one refl) ∙ q)
    ]

new_unc-valid :
    (server : Server) (share : Text) (p : UncPath)
    → IsServer server
    → new_unc server share ≡ ok p
    → IsServer p.server × IsShare p.share
unfolding new_unc
new_unc-valid server share p h e =
    let (u, v, same) =
      >>=-eq-ok (validate_share share) (λ done. ok (record { server = server; share = share })) e in
    subst (λ (q : UncPath). IsServer q.server × IsShare q.share) (ok-injective same)
      (h, validate_share_sound share v)

-- Whatever the text is, a UNC path that is parsed has a server and a share that their constructors accept,
-- and what `Display` writes of it parses to the same path.
pub parse_unc-IsValid :
    (t : Text) (p : UncPath)
    → parse_unc t ≡ ok p
    → IsServer p.server × IsShare p.share × (parse_unc (unc_to_string p) ≡ ok p)
unfolding parse_unc
parse_unc-IsValid t p e =
    let (rest, a, e₁) =
      >>=-eq-ok (ok_or (strip_prefix t) (no_prefix t))
        (λ rest.
          (ok_or (split_once backslash rest) (names_no_share t) >>= λ parts.
          (parse_server parts.0 >>= λ server. new_unc server (strip_suffix parts.1))))
        e in
    let (parts, b, e₂) =
      >>=-eq-ok (ok_or (split_once backslash rest) (names_no_share t))
        (λ parts. (parse_server parts.0 >>= λ server. new_unc server (strip_suffix parts.1))) e₁ in
    let (server, c, e₃) =
      >>=-eq-ok (parse_server parts.0) (λ server. new_unc server (strip_suffix parts.1)) e₂ in
    let (h, k) =
      new_unc-valid server (strip_suffix parts.1) p (parse_server-IsServer parts.0 server c) e₃ in
    (h, k, parse_unc-unc_to_string p h k)
