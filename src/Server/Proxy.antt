-- ===== src/Server/Proxy.antt =====
-- PROXY protocol, version 2: crates/sentio-smtp-server/src/proxy_protocol.rs.
pub mod Headers
mod Tests
use sentio.Common.{
  ℕ, zero, suc, ◌+◌, ◌*◌, ◌/◌, ◌%◌, Bool, not, List, [], ◌∷◌, ◌++◌, Option, none, some, take, drop,
  length, ltb, ◌==◌, if◌then◌else◌, Result, ok, err, ◌>>=◌,
}
use sentio.Common.Text.{same}
pub use sentio.Common.Ip.{Ip, v4, v6}

-- `SocketAddr` of the standard library.
pub record SocketAddr : Type 0 where
  pub ip : Ip
  pub port : ℕ

pub record ProxyInfo : Type 0 where
  pub src_addr : SocketAddr
  pub dst_addr : SocketAddr

pub data ProxyError : Type 0 where
  invalid_signature : ProxyError
  unsupported_version unsupported_family : ℕ → ProxyError
  io truncated_address : ProxyError

abbrev pub signature : List ℕ
signature = 0x0d ∷ 0x0a ∷ 0x0d ∷ 0x0a ∷ 0x00 ∷ 0x0d ∷ 0x0a ∷ 0x51 ∷ 0x55 ∷ 0x49 ∷ 0x54 ∷ 0x0a ∷ []

-- `read_exact`: the next bytes of the stream, and those behind them, or an end that comes too early.
unfoldable pub read_exact : ℕ → List ℕ → Result ProxyError (List ℕ × List ℕ)
read_exact n stream = if ltb (length stream) n then err io else ok (take n stream, drop n stream)

-- The byte at an index; every index below is within the bytes that it looks at.
abbrev pub at : List ℕ → ℕ → ℕ
at [] i = 0
at (b ∷ bytes) zero = b
at (b ∷ bytes) (suc i) = at bytes i

-- `u16::from_be_bytes`.
abbrev pub u16_at : List ℕ → ℕ → ℕ
u16_at bytes i = at bytes i * 256 + at bytes (i + 1)

abbrev localhost : SocketAddr
localhost = record { ip = v4 (127 ∷ 0 ∷ 0 ∷ 1 ∷ []); port = 0 }

-- The `match` on the address family.
unfoldable pub addresses : (family : ℕ) → List ℕ → Result ProxyError ProxyInfo
addresses family data_ =
    if family / 16 % 16 == 1
    then (if ltb (length data_) 12
        then err truncated_address
        else ok (record {
          src_addr = record { ip = v4 (take 4 data_); port = u16_at data_ 8 };
          dst_addr = record { ip = v4 (take 4 (drop 4 data_)); port = u16_at data_ 10 };
        }))
    else if family / 16 % 16 == 2
    then (if ltb (length data_) 36
        then err truncated_address
        else ok (record {
          src_addr = record { ip = v6 (take 16 data_); port = u16_at data_ 32 };
          dst_addr = record { ip = v6 (take 16 (drop 16 data_)); port = u16_at data_ 34 };
        }))
    else err (unsupported_family family)

-- What LOCAL and PROXY give, once the address data is read.
unfoldable pub connection_info : (header data_ : List ℕ) → Result ProxyError ProxyInfo
connection_info header data_ =
    if at header 12 % 16 == 0
    then ok (record { src_addr = localhost; dst_addr = localhost })
    else addresses (at header 13) data_

-- After the checks of the signature and the version.
unfoldable pub after_version : (header stream : List ℕ) → Result ProxyError (ProxyInfo × List ℕ)
after_version header stream = do
  (data_, rest) ← read_exact (u16_at header 14) stream
  info ← connection_info header data_
  ok (info, rest)

unfoldable pub check_header : (header stream : List ℕ) → Result ProxyError (ProxyInfo × List ℕ)
check_header header stream =
    if not (same (take 12 header) signature)
    then err invalid_signature
    else if not (at header 12 / 16 % 16 == 2)
    then err (unsupported_version (at header 12 / 16 % 16))
    else after_version header stream

-- The result, with what is left of the stream.
unfoldable pub read_proxy_header : List ℕ → Result ProxyError (ProxyInfo × List ℕ)
read_proxy_header stream = do (header, rest) ← read_exact 16 stream; check_header header rest
