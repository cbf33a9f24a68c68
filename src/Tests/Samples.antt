-- ===== src/Tests/Samples.antt =====
-- The packet builders of tests/TlsConstrictorTests.cpp and tests/QuicConstrictorTests.cpp.
use pcap_constrictor_afpacke.Base.{ℕ, ◌+◌, ◌/◌, ◌%◌, [], ◌∷◌, ◌++◌, length, replicate}
use pcap_constrictor_afpacke.Bytes.{Bytes}

abbrev pub be16_bytes : ℕ → Bytes
be16_bytes n = n / 256 % 256 ∷ n % 256 ∷ []

abbrev pub be32_bytes : ℕ → Bytes
be32_bytes n = be16_bytes (n / 65536) ++ be16_bytes n

-- `BuildIpv4TcpPacket`, from 10.0.0.1 to 10.0.0.2.
abbrev pub ipv4_tcp_packet : Bytes → ℕ → ℕ → ℕ → ℕ → Bytes
ipv4_tcp_packet payload src_port dst_port tcp_seq tcp_flags =
    replicate 12 0
    ++ 0x08 ∷ 0 ∷ 0x45 ∷ 0 ∷ []
    ++ be16_bytes (40 + length payload)
    ++ replicate 4 0
    ++ 0x40 ∷ 6 ∷ 0 ∷ 0 ∷ 10 ∷ 0 ∷ 0 ∷ 1 ∷ 10 ∷ 0 ∷ 0 ∷ 2 ∷ []
    ++ be16_bytes src_port
    ++ be16_bytes dst_port
    ++ be32_bytes tcp_seq
    ++ replicate 4 0
    ++ 0x50 ∷ tcp_flags ∷ replicate 6 0
    ++ payload

abbrev pub tls_record : ℕ → Bytes → Bytes
tls_record content_type body = content_type ∷ 3 ∷ 3 ∷ be16_bytes (length body) ++ body
