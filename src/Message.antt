-- ===== src/Message.antt =====
-- The message that sources make and destinations format: src/logmsg.h.
use indigo.Prelude.{ℕ, List, Bool}
use indigo.Prelude.Int.{ℤ}

-- LogStamp: a timeval and the offset in seconds that turns UTC into local time; -1 is unset.
pub record LogStamp : Type 0 where
  pub tv_sec : ℤ
  pub tv_usec : ℤ
  pub zone_offset : ℤ

-- The parts of a LogMessage that parsing fills; a GString is its bytes. Reference counts and
-- acknowledgement blocks are in Ack.
pub record LogMessage : Type 0 where
  pub internal : Bool
  pub local : Bool
  pub mark : Bool
  pub pri : ℕ
  pub stamp : LogStamp
  pub recvd : LogStamp
  pub date : List ℕ
  pub host : List ℕ
  pub program : List ℕ
  pub msg : List ℕ

-- The LP_* flags of parsing.
pub record ParseFlags : Type 0 where
  pub noparse : Bool
  pub internal : Bool
  pub local : Bool
  pub check_hostname : Bool
  pub strict : Bool
  pub kernel : Bool
