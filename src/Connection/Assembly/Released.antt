-- ===== src/Connection/Assembly/Released.antt =====
-- A lapsed request has released its buffers. It goes on tracking its reply all the same.
use smb1client_rs.Base.{◌≡◌, refl, false}
use smb1client_rs.Connection.Track
use smb1client_rs.Connection.Track.{Track}
use smb1client_rs.Connection.Assembly.{Assembly, release}

-- The two tracks of `b` are those of `a`, their buffers released.
pub record Shadows (a b : Assembly) : Type 0 where
  pub parameters : b.parameters ≡ Track.release a.parameters
  pub payload : b.payload ≡ Track.release a.payload
  pub unbuffered : b.buffered ≡ false

pub release-Shadows : (a : Assembly) → Shadows a (release a)
unfolding release
release-Shadows a = record { parameters = refl; payload = refl; unbuffered = refl }
