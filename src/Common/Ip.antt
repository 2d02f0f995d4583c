-- ===== src/Common/Ip.antt =====
-- `std::net::IpAddr`, with the bytes of the address, and its equality.
use Prim.Native.Nat.{ℕ}
use mathlib.Core.Bool.{Bool, false}
use mathlib.Core.List.{List}
use sentio.Common.Text.{same}

pub data Ip : Type 0 where
  v4 v6 : List ℕ → Ip

unfoldable pub same_ip : Ip → Ip → Bool
same_ip (v4 a) (v4 b) = same a b
same_ip (v6 a) (v6 b) = same a b
same_ip _ _ = false
