-- ===== src/Tests/RingExamples.antt =====
-- Blocks of a ring, and what is received from them.

use pcap_constrictor_afpacke.Config.{CaptureOptions, default_config}
use pcap_constrictor_afpacke.Capture.Ring.Opening.{validate_ring_configuration}
use pcap_constrictor_afpacke.Capture.Ring.Layout.{IsRingLayout, validate_ring_configuration_iff}
use pcap_constrictor_afpacke.Capture.Ring.Filling.{receive_packets-filled}
use pcap_constrictor_afpacke.Capture.Ring.Views.{IsView, receive_next-IsView}
use pcap_constrictor_afpacke.Base.{
  refl, [], ◌∷◌, ◌++◌, none, replicate, true, arith, get_or, List, false, ◌↔◌, ◌≡◌,
}
use pcap_constrictor_afpacke.Bytes.{Bytes}
use pcap_constrictor_afpacke.Capture.{IsCapture, Returns}
use pcap_constrictor_afpacke.Capture.Ring.{
  Abi, filled, tpacket_v3_capture, Ring, receive_next, PacketHeader, filled_in_poll, polled,
  poll_ready,
}
use pcap_constrictor_afpacke.Capture.Ring.Invariant.{IsRing, packets_left}
use pcap_constrictor_afpacke.Capture.Ring.Received.{tpacket_v3_capture-IsCapture}
use pcap_constrictor_afpacke.Main.{new_ring_capture}
use pcap_constrictor_afpacke.Capture.Ring.Delivery.{Gives, IsDelivered, IsChain}
use pcap_constrictor_afpacke.Capture.Ring.Draining.{receive_packets, receive_packets-IsDelivered}

-- Structures of 12 and 4 bytes, each field a byte.
abbrev pub small_abi : Abi
small_abi = record {
  header_size = 12;
  aligned_header_size = 16;
  address_size = 4;
  aligned_address_size = 16;
  alignment = 16;
  read_desc =
      λ bytes. record { num_pkts = get_or bytes 0 0; offset_to_first_pkt = get_or bytes 1 0 };
  read_header = λ bytes. record {
    tp_next_offset = get_or bytes 0 0;
    tp_sec = get_or bytes 1 0;
    tp_nsec = get_or bytes 2 0;
    tp_snaplen = get_or bytes 3 0;
    tp_len = get_or bytes 4 0;
    tp_mac = get_or bytes 5 0;
  };
  read_address = λ bytes. record { sll_pkttype = get_or bytes 0 0; sll_ifindex = get_or bytes 1 0 };
}

tpacket_v3_capture-IsCapture_example : IsCapture IsRing packets_left (tpacket_v3_capture small_abi)
tpacket_v3_capture-IsCapture_example = tpacket_v3_capture-IsCapture small_abi

-- A block of one packet of three bytes.
abbrev pub full_block : Bytes
full_block =
    1 ∷ 16 ∷ replicate 14 0 ++ 0 ∷ 9 ∷ 5 ∷ 3 ∷ 3 ∷ 20 ∷ replicate 14 0 ++ 7 ∷ 8 ∷ 9 ∷ replicate 25 0

-- The ring while its one block is read.
abbrev sample_ring : Ring
sample_ring = record {
  capture = record new_ring_capture {
    has_socket = true;
    has_mapping = true;
    block_size = 64;
    block_count = 1;
    current_block_packet_count = 1;
    current_packet_offset = 16;
    current_block_active = true;
    interface_index = 1;
  };
  blocks = record { is_user = true; contents = full_block } ∷ [];
  events = filled 0 full_block ∷ [];
  kernel_stats = none;
}

receive_next-IsView_example : Returns IsView (receive_next small_abi none 0 sample_ring)
receive_next-IsView_example = receive_next-IsView small_abi none 0 sample_ring (record {
  socket_ok = refl;
  mapping_ok = refl;
  count_is = refl;
  index_lt = omega arith;
  count_lt = omega arith;
  size_lt = omega arith;
  sized = (refl, tt);
  fills = (refl, tt);
  active_ok = λ e. (refl, omega arith, omega arith);
})

-- A block of two packets, the second behind the first.
abbrev two_packets : Bytes
two_packets =
    2 ∷ 16 ∷ replicate 14 0
    ++ 32 ∷ 9 ∷ 5 ∷ 3 ∷ 3 ∷ 20 ∷ replicate 14 0
    ++ 7 ∷ 8 ∷ 9 ∷ replicate 9 0
    ++ 0 ∷ 9 ∷ 6 ∷ 2 ∷ 5 ∷ 16 ∷ replicate 10 0
    ++ 10 ∷ 11 ∷ replicate 14 0

abbrev two_headers : List PacketHeader
two_headers =
    small_abi.read_header (32 ∷ 9 ∷ 5 ∷ 3 ∷ 3 ∷ 20 ∷ [])
    ∷ small_abi.read_header (0 ∷ 9 ∷ 6 ∷ 2 ∷ 5 ∷ 16 ∷ [])
    ∷ []

abbrev ring_of_two : Ring
ring_of_two = record sample_ring {
  capture = record (sample_ring.capture) { block_size = 80; current_block_packet_count = 2 };
  blocks = record { is_user = true; contents = two_packets } ∷ [];
}

-- The ring before the kernel has filled the block.
abbrev idle_ring : Ring
idle_ring = record ring_of_two {
  capture = record (ring_of_two.capture) {
    current_block_packet_count = 0;
    current_packet_offset = 0;
    current_block_active = false;
  };
  blocks = record { is_user = false; contents = replicate 80 0 } ∷ [];
  events = filled_in_poll 0 two_packets ∷ polled poll_ready ∷ [];
}

two_headers-IsChain : IsChain small_abi 80 two_packets 16 two_headers
two_headers-IsChain = (
  omega arith,
  refl,
  omega arith,
  omega arith,
  λ l e. absurd (omega (arith, e)),
  (omega arith, refl, omega arith, omega arith, λ l e. absurd (omega (arith, l)), tt),
)

receive_packets-IsDelivered_example :
    Gives (IsDelivered two_packets 16 two_headers) (receive_packets small_abi 2 0 ring_of_two)
receive_packets-IsDelivered_example =
    receive_packets-IsDelivered small_abi two_packets two_headers 0 ring_of_two (record {
      socket_ok = refl;
      mapping_ok = refl;
      some_block = omega arith;
      active = refl;
      is_user = true;
      found = refl;
      inside = refl;
      size_lt = omega arith;
      count_lt = omega arith;
      count_is = refl;
      chain = two_headers-IsChain;
    })

receive_packets-filled_example :
    Gives (IsDelivered two_packets 16 two_headers) (receive_packets small_abi 2 0 idle_ring)
receive_packets-filled_example =
    receive_packets-filled small_abi two_packets two_headers 0 idle_ring []
      (record {
        socket_ok = refl;
        mapping_ok = refl;
        some_block = omega arith;
        inactive = refl;
        old = replicate 80 0;
        kernel_owned = refl;
      })
      (record {
        inside = refl;
        size_lt = omega arith;
        num_pkts = refl;
        some_packet = omega arith;
        count_le = omega arith;
        count_lt = omega arith;
        chain = two_headers-IsChain;
      })
      refl

-- A ring of four pages with two frames each.
abbrev paged : CaptureOptions
paged = record (default_config.capture) {
  ring_block_size = 4096;
  ring_block_count = 4;
  ring_frame_size = 2048;
}

validate_ring_configuration_iff_example :
    (validate_ring_configuration small_abi 4096 paged ≡ true) ↔ IsRingLayout small_abi 4096 paged
validate_ring_configuration_iff_example =
    validate_ring_configuration_iff small_abi 4096 paged (omega arith)
