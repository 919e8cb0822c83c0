-- ===== src/Status.antt =====
-- The statuses of src/status.rs that the modelled code matches. A status is its 32-bit code.
use smb1client_rs.Base.{ℕ}

abbrev pub NtStatus : Type 0
NtStatus = ℕ

abbrev pub success : NtStatus
success = 0x0000_0000

abbrev pub pending : NtStatus
pending = 0x0000_0103

abbrev pub user_session_deleted : NtStatus
user_session_deleted = 0xC000_0203
