-- ===== src/Decode/Types.antt =====
-- src/decode/PacketDecode.hpp, and the constants of PacketDecode.cpp.
use pcap_constrictor_afpacke.Base.{ℕ, Bool, true, false, ◌||◌, ◌==◌, replicate}
use pcap_constrictor_afpacke.Bytes.{Bytes}

pub data IpVersion : Type 0 where
  no_ip ipv4 ipv6 : IpVersion

pub data TransportProtocol : Type 0 where
  no_transport tcp udp : TransportProtocol

-- `transport_protocol == TransportProtocol::Tcp` and `== TransportProtocol::Udp`.
abbrev pub is_tcp : TransportProtocol → Bool
is_tcp tcp = true
is_tcp _ = false

abbrev pub is_udp : TransportProtocol → Bool
is_udp udp = true
is_udp _ = false

pub data PacketDecodeFailureReason : Type 0 where
  no_failure truncated_ethernet_header truncated_vlan_tag : PacketDecodeFailureReason
  truncated_ipv4_header invalid_ipv4_ihl invalid_ipv4_total_length : PacketDecodeFailureReason
  truncated_ipv4_packet truncated_ipv6_header truncated_ipv6_packet : PacketDecodeFailureReason
  unsupported_ipv6_extension_headers truncated_tcp_header : PacketDecodeFailureReason
  invalid_tcp_data_offset truncated_udp_header invalid_udp_length : PacketDecodeFailureReason
  truncated_udp_payload : PacketDecodeFailureReason

pub record PacketDecodeResult : Type 0 where
  pub success : Bool
  pub failure_reason : PacketDecodeFailureReason
  pub ethertype : ℕ
  pub vlan_tag_count : ℕ
  pub ip_version : IpVersion
  pub transport_protocol : TransportProtocol
  pub ip_protocol : ℕ
  pub link_header_length : ℕ
  pub network_header_offset : ℕ
  pub network_header_length : ℕ
  pub transport_header_offset : ℕ
  pub transport_header_length : ℕ
  pub transport_payload_offset : ℕ
  pub transport_payload_length : ℕ
  pub src_port : ℕ
  pub dst_port : ℕ
  pub tcp_seq : ℕ
  pub tcp_flags : ℕ
  pub src_address : Bytes
  pub dst_address : Bytes
  pub address_length : ℕ

-- The default member initialisers.
abbrev pub empty_result : PacketDecodeResult
empty_result = record {
  success = false;
  failure_reason = no_failure;
  ethertype = 0;
  vlan_tag_count = 0;
  ip_version = no_ip;
  transport_protocol = no_transport;
  ip_protocol = 0;
  link_header_length = 0;
  network_header_offset = 0;
  network_header_length = 0;
  transport_header_offset = 0;
  transport_header_length = 0;
  transport_payload_offset = 0;
  transport_payload_length = 0;
  src_port = 0;
  dst_port = 0;
  tcp_seq = 0;
  tcp_flags = 0;
  src_address = replicate 16 0;
  dst_address = replicate 16 0;
  address_length = 0;
}

abbrev pub ethertype_vlan : ℕ
ethertype_vlan = 0x8100

abbrev pub ethertype_provider_bridge : ℕ
ethertype_provider_bridge = 0x88A8

abbrev pub ethertype_ipv4 : ℕ
ethertype_ipv4 = 0x0800

abbrev pub ethertype_ipv6 : ℕ
ethertype_ipv6 = 0x86DD

abbrev pub ip_protocol_tcp : ℕ
ip_protocol_tcp = 6

abbrev pub ip_protocol_udp : ℕ
ip_protocol_udp = 17

unfoldable pub is_vlan_ethertype : ℕ → Bool
is_vlan_ethertype ether_type =
    ether_type == ethertype_vlan || ether_type == ethertype_provider_bridge

unfoldable pub is_unsupported_ipv6_extension : ℕ → Bool
is_unsupported_ipv6_extension next_header =
    next_header == 0
    || next_header == 43
    || next_header == 44
    || next_header == 51
    || next_header == 60
    || next_header == 135
    || next_header == 139
    || next_header == 140
