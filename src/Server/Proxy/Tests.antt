-- ===== src/Server/Proxy/Tests.antt =====
-- Headers of the PROXY protocol, and the instances of the theorems.
use sentio.Common.{ℕ, ◌/◌, ◌%◌, List, [], ◌∷◌, ◌++◌, ◌≡◌, refl, ok, take, drop}
use sentio.Common.Text.{same}
use sentio.Server.Proxy.{
  v4, ProxyInfo, signature, at, u16_at, read_exact, addresses, connection_info, after_version,
  check_header, read_proxy_header,
}
use sentio.Server.Proxy.Headers.{header_v4, read_proxy_header-header_v4, read_proxy_header_sound}

abbrev info : ProxyInfo
info = record {
  src_addr = record { ip = v4 (192 ∷ 0 ∷ 2 ∷ 1 ∷ []); port = 4660 };
  dst_addr = record { ip = v4 (192 ∷ 0 ∷ 2 ∷ 2 ∷ []); port = 25 };
}

abbrev stream : List ℕ
stream = header_v4 192 0 2 1 192 0 2 2 4660 25 ++ b'E' ∷ []

read_proxy_header-header_v4_example : read_proxy_header stream ≡ ok (info, b'E' ∷ [])
read_proxy_header-header_v4_example =
    read_proxy_header-header_v4 192 0 2 1 192 0 2 2 4660 25 (b'E' ∷ [])

reads : read_proxy_header stream ≡ ok (info, b'E' ∷ [])
unfolding read_proxy_header check_header after_version connection_info addresses read_exact same
reads = refl

read_proxy_header_sound_example :
    (take 12 (take 16 stream) ≡ signature)
    × ((at (take 16 stream) 12 / 16 % 16 ≡ 2)
        × (b'E' ∷ [] ≡ drop (u16_at (take 16 stream) 14) (drop 16 stream)))
read_proxy_header_sound_example = read_proxy_header_sound stream (b'E' ∷ []) info reads
