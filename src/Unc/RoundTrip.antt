-- ===== src/Unc/RoundTrip.antt =====
-- A server and a UNC path that their constructors accept are written and read back unchanged, and the
-- parsers accept what the constructors accept.
use smb1client_rs.Base.{
  ℕ, ◌≤◌, ◌<◌, ◌≡◌, refl, sym, ◌∙◌, ap, false, ◌==◌, ◌&&◌, leb, [], ◌∷◌, ◌++◌, is_empty, arith,
  Bool-cases, inl, inr, ok,
}
use smb1client_rs.SharePath.{Text, backslash, slash, has_char, starts_with}
use smb1client_rs.Unc.{
  Server, UncPath, default_port, colon, open_bracket, close_bracket, is_bad, has_bad,
  validate_share, digits, parse_server, server_to_string, new_unc, parse_unc, unc_to_string,
  strip_prefix,
}
use smb1client_rs.Unc.Decimal.{has_char-append, digits_only, parse_u16-digits}
use smb1client_rs.Unc.Splits.{
  rsplit_once_absent, rsplit_once-append, split_once-append, strip_suffix_absent,
}

-- What may go on the wire as a host: not empty, no bracket and no colon, and no separator, white space
-- or control character.
pub record IsHost (host : Text) : Type 0 where
  pub some_char : is_empty host ≡ false
  pub no_open : has_char open_bracket host ≡ false
  pub no_close : has_char close_bracket host ≡ false
  pub no_colon : has_char colon host ≡ false
  pub no_bad : has_bad host ≡ false

pub record IsServer (s : Server) : Type 0 where
  pub is_host : IsHost s.host
  pub dialled : 1 ≤ s.port
  pub small : s.port < 65_536

pub record IsShare (share : Text) : Type 0 where
  pub some_char : is_empty share ≡ false
  pub no_null : has_char 0 share ≡ false
  pub no_backslash : has_char backslash share ≡ false
  pub no_slash : has_char slash share ≡ false

validate_share-IsShare : (share : Text) → IsShare share → validate_share share ≡ ok tt
unfolding validate_share
validate_share-IsShare share h =
    rw (validate_share, h.some_char, h.no_null, h.no_backslash, h.no_slash) refl

starts_with_has : (k : ℕ) (s : Text) → has_char k s ≡ false → starts_with k s ≡ false
unfolding has_char
starts_with_has k [] h = refl
starts_with_has k (c ∷ s) h = ground (arith, h)

-- A character that stands neither in a host nor in a number does not stand in what is dialled.
dialled_has :
    (k : ℕ) (host : Text) (port : ℕ)
    → has_char k host ≡ false
    → (leb 48 k && leb k 57) ≡ false
    → (colon == k) ≡ false
    → has_char k (host ++ colon ∷ digits 5 port) ≡ false
unfolding has_char
dialled_has k host port h d c =
    rw (has_char-append k host (colon ∷ digits 5 port), h, c, digits_only k 5 port d) refl

parse_host :
    (host : Text)
    → IsHost host
    → parse_server host ≡ ok (record { host = host; port = default_port })
unfolding parse_server
parse_host host h =
    rw
      (
        parse_server,
        starts_with_has open_bracket host h.no_open,
        h.no_close,
        rsplit_once_absent colon host h.no_colon,
        h.some_char,
        h.no_open,
        h.no_close,
        h.no_colon,
        h.no_bad,
      )
      refl

parse_host_port :
    (host : Text) (port : ℕ)
    → IsHost host
    → 1 ≤ port
    → port < 65_536
    → parse_server (host ++ colon ∷ digits 5 port) ≡ ok (record { host = host; port = port })
unfolding parse_server
parse_host_port host port h l k =
    rw
      (
        parse_server,
        starts_with_has open_bracket (host ++ colon ∷ digits 5 port)
            (dialled_has open_bracket host port h.no_open refl refl),
        dialled_has close_bracket host port h.no_close refl refl,
        rsplit_once-append colon host (digits 5 port) (digits_only colon 5 port refl),
        h.no_colon,
        parse_u16-digits port k,
        h.some_char,
        h.no_open,
        h.no_close,
        h.no_colon,
        h.no_bad,
        some_port,
      )
      refl
  where
    some_port : (port == 0) ≡ false
    some_port = ground (arith, l)

-- A server with a host that may go on the wire and a port from 1 to 65,535 is read back from what
-- `Display` writes of it.
parse_server-server_to_string : (s : Server) → IsServer s → parse_server (server_to_string s) ≡ ok s
unfolding server_to_string
parse_server-server_to_string s h = elim (Bool-cases (s.port == default_port)) [
  | inl usual ↦
      let port : s.port ≡ default_port = ground (arith, usual) in
      rw (server_to_string, usual)
        (parse_host s.host h.is_host ∙ ap (λ n. ok (record { host = s.host; port = n })) (sym port))
  | inr other ↦
      rw (server_to_string, other) (parse_host_port s.host s.port h.is_host h.dialled h.small)
]

server_flat :
    (s : Server)
    → IsServer s
    → has_char backslash s.host ≡ false
    → has_char backslash (server_to_string s) ≡ false
unfolding server_to_string
server_flat s h flat = elim (Bool-cases (s.port == default_port)) [
  | inl usual ↦ rw (server_to_string, usual) flat
  | inr other ↦ rw (server_to_string, other) (dialled_has backslash s.host s.port flat refl refl)
]

bad_flat : (host : Text) → has_bad host ≡ false → has_char backslash host ≡ false
unfolding has_bad is_bad has_char
bad_flat [] h = refl
bad_flat (c ∷ host) h = ground (arith, h, bad_flat host)

-- A UNC path with a server whose host may go on the wire, a port from 1 to 65,535 and a share name of
-- one component is read back from what `Display` writes of it.
pub parse_unc-unc_to_string :
    (p : UncPath) → IsServer p.server → IsShare p.share → parse_unc (unc_to_string p) ≡ ok p
unfolding parse_unc unc_to_string strip_prefix new_unc
parse_unc-unc_to_string p h k =
    rw
      (
        split_once-append backslash (server_to_string p.server) p.share
            (server_flat p.server h (bad_flat p.server.host h.is_host.no_bad)),
        parse_server-server_to_string p.server h,
        strip_suffix_absent p.share k.no_backslash,
        validate_share-IsShare p.share k,
      )
      refl
