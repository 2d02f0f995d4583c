-- ===== src/Server/Proxy/Headers.antt =====
-- Headers that are well formed are read by proxy_protocol.rs, and others are not.
use sentio.Common.{ℕ, ◌/◌, ◌%◌, ◌≤◌, List, [], ◌∷◌, ◌++◌, ◌≡◌, arith, take, drop, length, ok}
use sentio.Common.Text.{same, same_iff}
use sentio.Server.Proxy.{
  v4, ProxyInfo, signature, read_exact, at, u16_at, addresses, connection_info, after_version,
  check_header, read_proxy_header,
}

-- The header of a TCP connection over IPv4.
abbrev pub header_v4 : (a b c d e f g h : ℕ) (src_port dst_port : ℕ) → List ℕ
header_v4 a b c d e f g h src_port dst_port =
    signature
    ++ 0x21
      ∷ 0x11
      ∷ 0
      ∷ 12
      ∷ a
      ∷ b
      ∷ c
      ∷ d
      ∷ e
      ∷ f
      ∷ g
      ∷ h
      ∷ src_port / 256
      ∷ src_port % 256
      ∷ dst_port / 256
      ∷ dst_port % 256
      ∷ []

-- A header for IPv4 gives its two addresses, and what follows it is left.
pub read_proxy_header-header_v4 :
    (a b c d e f g h src_port dst_port : ℕ) (rest : List ℕ)
    → read_proxy_header (header_v4 a b c d e f g h src_port dst_port ++ rest)
      ≡ ok (
        record {
          src_addr = record { ip = v4 (a ∷ b ∷ c ∷ d ∷ []); port = src_port };
          dst_addr = record { ip = v4 (e ∷ f ∷ g ∷ h ∷ []); port = dst_port };
        },
        rest,
      )
unfolding read_proxy_header check_header after_version connection_info addresses read_exact same
read_proxy_header-header_v4 a b c d e f g h src_port dst_port rest = ground arith

after_version_consumes :
    (header stream rest : List ℕ) (info : ProxyInfo)
    → after_version header stream ≡ ok (info, rest)
    → (u16_at header 14 ≤ length stream) × (rest ≡ drop (u16_at header 14) stream)
unfolding after_version read_exact
after_version_consumes header stream rest info e = ground arith

-- Whatever is accepted begins with the signature and has version 2, and what is left of the stream
-- is what follows the header and as many bytes as it announces.
pub read_proxy_header_sound :
    (stream rest : List ℕ) (info : ProxyInfo)
    → read_proxy_header stream ≡ ok (info, rest)
    → (take 12 (take 16 stream) ≡ signature)
      × ((at (take 16 stream) 12 / 16 % 16 ≡ 2)
          × (rest ≡ drop (u16_at (take 16 stream) 14) (drop 16 stream)))
unfolding read_proxy_header check_header read_exact
read_proxy_header_sound stream rest info e = ground (
  arith,
  same_iff (take 12 (take 16 stream)) signature,
  after_version_consumes (take 16 stream) (drop 16 stream) rest info,
)
