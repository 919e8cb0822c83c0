-- ===== src/Unc.antt =====
-- `Server` and `UncPath` of src/unc.rs. A string is the list of its code points, and the refusals, which
-- the source tells apart by their text, are told apart by a constructor.
pub mod Decimal
pub mod Splits
pub mod RoundTrip
pub mod Sound
mod Tests
use smb1client_rs.Base.{
  ℕ, zero, suc, ◌+◌, ◌-◌, ◌*◌, ◌/◌, ◌%◌, Bool, true, false, ◌==◌, ◌&&◌, ◌||◌, not, leb, ltb,
  if◌then◌else◌, Option, none, some, List, [], ◌∷◌, ◌++◌, is_empty, Result, ok, err, ok_or, guard,
  ◌>>=◌, ◌>>◌,
}
use smb1client_rs.SharePath.{Text, slash, backslash, is_whitespace, has_char, starts_with}

abbrev pub default_port : ℕ
default_port = 445

abbrev pub colon : ℕ
colon = 0x3A

abbrev pub open_bracket : ℕ
open_bracket = 0x5B

abbrev pub close_bracket : ℕ
close_bracket = 0x5D

abbrev pub plus : ℕ
plus = 0x2B

-- "IPC$"
abbrev pub ipc_share : Text
ipc_share = 0x49 ∷ 0x50 ∷ 0x43 ∷ 0x24 ∷ []

pub data InvalidPath : Type 0 where
  no_server : InvalidPath
  ipv6_literal : Text → InvalidPath
  bad_host : Text → InvalidPath
  port_zero : InvalidPath
  not_a_port : Text → InvalidPath
  no_share : InvalidPath
  null_byte : Text → InvalidPath
  share_separator : Text → InvalidPath
  no_prefix : Text → InvalidPath
  names_no_share : Text → InvalidPath

pub record Server : Type 0 where
  pub host : Text
  pub port : ℕ

pub record UncPath : Type 0 where
  pub server : Server
  pub share : Text

-- `char::is_control`, the category Cc of Unicode
unfoldable pub is_control : ℕ → Bool
is_control c = ltb c 0x20 || (leb 0x7F c && ltb c 0xA0)

unfoldable pub is_bad : ℕ → Bool
unfolding is_control
is_bad c = c == backslash || c == slash || is_whitespace c || is_control c

-- `host.chars().find(…)`, whether it finds one
unfoldable pub has_bad : Text → Bool
unfolding is_bad
has_bad [] = false
has_bad (c ∷ s) = is_bad c || has_bad s

unfoldable pub validate_host : Text → Result InvalidPath (Unit {0})
unfolding has_bad
validate_host host = do
  guard (not (is_empty host)) no_server
  guard (not (has_char open_bracket host || has_char close_bracket host || has_char colon host))
      (ipv6_literal host)
  guard (not (has_bad host)) (bad_host host)

unfoldable pub validate_share : Text → Result InvalidPath (Unit {0})
validate_share share = do
  guard (not (is_empty share)) no_share
  guard (not (has_char 0 share)) (null_byte share)
  guard (not (has_char backslash share || has_char slash share)) (share_separator share)

-- `Server::new`; a port is a `u16`
unfoldable pub new_server : Text → ℕ → Result InvalidPath Server
unfolding validate_host
new_server host port = do
  validate_host host
  guard (not (port == 0)) port_zero
  ok (record { host = host; port = port })

-- `Server::unc_name`, `Server::unc_to`, `Server::ipc_path`
abbrev pub unc_name : Server → Text
unc_name s = backslash ∷ backslash ∷ s.host

abbrev pub unc_to : Server → Text → Text
unc_to s share = unc_name s ++ (backslash ∷ share)

abbrev pub ipc_path : Server → Text
ipc_path s = unc_to s ipc_share

-- `str::rsplit_once` and `str::split_once`, at one character
unfoldable pub rsplit_once : ℕ → Text → Option (Text × Text)
rsplit_once k [] = none
rsplit_once k (c ∷ s) = elim (rsplit_once k s) [
  | some (before, after) ↦ some (c ∷ before, after)
  | none ↦ if c == k then some ([], s) else none
]

unfoldable pub split_once : ℕ → Text → Option (Text × Text)
split_once k [] = none
split_once k (c ∷ s) =
    let later = split_once k s in
    if c == k
    then some ([], s)
    else (elim later [ none ↦ none | some (before, after) ↦ some (c ∷ before, after) ])

-- A digit more of `u16::from_str`, which refuses what a `u16` does not hold
abbrev pub digit_more : ℕ → (c : ℕ) → Option ℕ
digit_more n c =
    if leb 48 c && leb c 57
    then (if ltb (n * 10 + (c - 48)) 65_536 then some (n * 10 + (c - 48)) else none)
    else none

unfoldable pub parse_digits : ℕ → Text → Option ℕ
parse_digits n [] = some n
parse_digits n (c ∷ s) = elim (digit_more n c) [ none ↦ none | some m ↦ parse_digits m s ]

abbrev pub strip_plus : Text → Text
strip_plus [] = []
strip_plus (c ∷ s) = if c == plus then s else c ∷ s

-- `u16::from_str`: one sign at most, one digit at least
unfoldable pub parse_u16 : Text → Option ℕ
unfolding parse_digits
parse_u16 s = if is_empty (strip_plus s) then none else parse_digits 0 (strip_plus s)

-- `Display` of a `u16`, which has five digits at most
unfoldable pub digits : (fuel n : ℕ) → Text
digits zero n = []
digits (suc fuel) n =
    let front = digits fuel (n / 10) in
    if ltb n 10 then (48 + n) ∷ [] else front ++ ((48 + n % 10) ∷ [])

-- `Server::from_str`
unfoldable pub parse_server : Text → Result InvalidPath Server
unfolding new_server parse_u16
parse_server server =
    if starts_with open_bracket server || has_char close_bracket server
    then new_server server default_port
    else elim (rsplit_once colon server) [
      | none ↦ new_server server default_port
      | some (host, port) ↦
          if has_char colon host
          then new_server server default_port
          else (ok_or (parse_u16 port) (not_a_port port) >>= new_server host)
    ]

-- `Display` of a server
unfoldable pub server_to_string : Server → Text
unfolding digits
server_to_string s = if s.port == default_port then s.host else s.host ++ (colon ∷ digits 5 s.port)

-- `UncPath::new`
unfoldable pub new_unc : Server → Text → Result InvalidPath UncPath
unfolding validate_share
new_unc server share = do validate_share share; ok (record { server = server; share = share })

-- `UncPath::share_path`
abbrev pub share_path : UncPath → Text
share_path p = unc_to p.server p.share

-- `strip_prefix(r"\\")` and `strip_suffix('\\')`
unfoldable pub strip_prefix : Text → Option Text
strip_prefix (a ∷ b ∷ s) = if a == backslash && b == backslash then some s else none
strip_prefix _ = none

unfoldable pub strip_suffix : Text → Text
strip_suffix [] = []
strip_suffix (c ∷ s) =
    let rest = strip_suffix s in
    if is_empty s then (if c == backslash then [] else c ∷ []) else c ∷ rest

-- `UncPath::from_str`
unfoldable pub parse_unc : Text → Result InvalidPath UncPath
unfolding parse_server new_unc
parse_unc path = do
  rest ← ok_or (strip_prefix path) (no_prefix path)
  parts ← ok_or (split_once backslash rest) (names_no_share path)
  server ← parse_server parts.0
  new_unc server (strip_suffix parts.1)

-- `Display` of a UNC path
unfoldable pub unc_to_string : UncPath → Text
unfolding server_to_string
unc_to_string p = backslash ∷ backslash ∷ (server_to_string p.server ++ (backslash ∷ p.share))
