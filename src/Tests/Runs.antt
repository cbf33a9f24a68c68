-- ===== src/Tests/Runs.antt =====
use pcap_constrictor_afpacke.Base.{
  ◌+◌, ◌≡◌, refl, ◌++◌, Option, none, some, ◌>>=◌, replicate, insert,
}
use pcap_constrictor_afpacke.Bytes.{Bytes, has_bytes, read, read_be16, read_be32, subspan}
use pcap_constrictor_afpacke.Config.{default_config}
use pcap_constrictor_afpacke.Decode.{
  decode_packet, vlan_loop, decode_network, is_vlan_ethertype, decode_ipv4, ipv4_fields,
  ipv4_payload, copy_address, decode_transport, decode_tcp, tcp_fields,
}
use pcap_constrictor_afpacke.Tls
use pcap_constrictor_afpacke.Tls.{
  Directions, TlsConstrictResult, walk_records, walk_round, read_tls_record_header,
  is_tls_content_type, continue_record, evaluate_payload, finish, DirectionKey-discrete,
}
use pcap_constrictor_afpacke.Tests.Samples.{ipv4_tcp_packet, tls_record}

abbrev hello_then_data : Bytes
hello_then_data =
    ipv4_tcp_packet (tls_record 0x16 (replicate 3 7) ++ tls_record 0x17 (replicate 300 9)) 12345 443
      1 0x18

abbrev no_directions : Directions
no_directions k = none

run_tls : Directions → Bytes → Option (TlsConstrictResult × Directions)
run_tls m p = do d ← decode_packet p; Tls.evaluate m p d (default_config.tls)

run_disposition : Bytes → Option TlsConstrictResult
unfolding run_tls
run_disposition p = do r ← run_tls no_directions p; some r.0

hello_then_data_prefix :
    run_disposition hello_then_data
    ≡ some (record { disposition = Tls.app_data_prefix; output_len = 54 + 8 + 256 })
unfolding run_disposition decode_packet vlan_loop decode_network is_vlan_ethertype decode_ipv4
    ipv4_fields ipv4_payload copy_address decode_transport decode_tcp tcp_fields Tls.evaluate
    has_bytes read read_be16 read_be32 subspan walk_records walk_round read_tls_record_header
    is_tls_content_type continue_record evaluate_payload finish DirectionKey-discrete insert
    Tls.start_walk Tls.resynchronize Tls.open_directions Tls.on_header Tls.on_record
    Tls.whole_record Tls.accept_header Tls.conclude
hello_then_data_prefix = refl
