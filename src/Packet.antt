-- ===== src/Packet.antt =====
-- src/capture/PacketView.hpp and CapturedPacket.hpp. A time point is its nanoseconds since the epoch.
use pcap_constrictor_afpacke.Base.{ℕ, ◌%◌, min, Bool, ◌&&◌, leb, length}
use pcap_constrictor_afpacke.Bytes.{Bytes, u32_mod}

pub record PacketView : Type 0 where
  pub data_span : Bytes
  pub captured_len : ℕ
  pub original_len : ℕ

unfoldable pub is_length_sane : PacketView → Bool
is_length_sane v = leb v.captured_len (length v.data_span) && leb v.captured_len v.original_len

unfoldable pub safe_captured_len : PacketView → ℕ
safe_captured_len v = min v.captured_len (length v.data_span) % u32_mod

pub data PacketDirection : Type 0 where
  unknown incoming outgoing broadcast multicast other_host : PacketDirection

pub record CapturedPacket : Type 0 where
  pub packet : PacketView
  pub timestamp : ℕ
  pub ifindex : ℕ
  pub direction : PacketDirection
