-- ===== src/Wire/Header.antt =====
-- src/wire/header.rs: the message header, and the commands and flags that it carries.
use smb1client_rs.Base.{ℕ, ◌+◌, List, replicate}
use smb1client_rs.Status.{NtStatus, success}

abbrev pub header_len : ℕ
header_len = 32

pub record SmbHeader : Type 0 where
  pub command : ℕ
  pub status : NtStatus
  pub flags : ℕ
  pub flags2 : ℕ
  pub pid_high : ℕ
  pub security_features : List ℕ
  pub reserved : ℕ
  pub tid : ℕ
  pub pid_low : ℕ
  pub uid : ℕ
  pub mid : ℕ

-- `FLAGS_CASE_INSENSITIVE | FLAGS_CANONICALIZED_PATHS`, two bits.
abbrev pub flags_client : ℕ
flags_client = 0x08 + 0x10

-- `FLAGS2_UNICODE | FLAGS2_NT_STATUS | FLAGS2_EXTENDED_SECURITY | FLAGS2_KNOWS_LONG_NAMES`, four
-- bits.
abbrev pub flags2_client : ℕ
flags2_client = 0x8000 + 0x4000 + 0x0800 + 0x0001

-- `SmbHeader::request`
abbrev pub request : ℕ → SmbHeader
request command = record {
  command = command;
  status = success;
  flags = flags_client;
  flags2 = flags2_client;
  pid_high = 0;
  security_features = replicate 8 0;
  reserved = 0;
  tid = 0;
  pid_low = 1;
  uid = 0;
  mid = 0;
}

-- The module `command`: those that the modelled code names.
abbrev pub transaction : ℕ
transaction = 0x25

abbrev pub read_andx : ℕ
read_andx = 0x2E

abbrev pub write_andx : ℕ
write_andx = 0x2F

abbrev pub transaction2 : ℕ
transaction2 = 0x32

abbrev pub session_setup_andx : ℕ
session_setup_andx = 0x73

abbrev pub logoff_andx : ℕ
logoff_andx = 0x74

abbrev pub tree_connect_andx : ℕ
tree_connect_andx = 0x75

abbrev pub nt_create_andx : ℕ
nt_create_andx = 0xA2
