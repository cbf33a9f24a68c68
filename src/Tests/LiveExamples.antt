-- ===== src/Tests/LiveExamples.antt =====
-- The program with its two captures: a text of settings, packets from a socket, blocks of a ring.

use pcap_constrictor_afpacke.Capture.{IsReceived}
use pcap_constrictor_afpacke.Writer.{new_writer}
use pcap_constrictor_afpacke.Capture.Recvmsg.Order.{packets_of}
use pcap_constrictor_afpacke.Live.Order.{process, outcome, sink_of, live_loop-process}
use pcap_constrictor_afpacke.Live.Duration.{has_elapsed_lem}
use pcap_constrictor_afpacke.Capture.Ring.Opening.{validate_ring_layout}
use pcap_constrictor_afpacke.Live
use pcap_constrictor_afpacke.Offline
use pcap_constrictor_afpacke.Live.Counted.{accumulate_decision_stats_agree}
use pcap_constrictor_afpacke.Policy.{quic_long_header, new_policy}
use pcap_constrictor_afpacke.Stats.{empty_stats}
use pcap_constrictor_afpacke.Base.{
  ◌≡◌, refl, [], ◌∷◌, none, some, replicate, true, false, arith, ◌≤◌, ◌*◌, ◌↔◌, ◌>>=◌,
}
use pcap_constrictor_afpacke.Bytes.{Bytes}
use pcap_constrictor_afpacke.Capture.Sockets.{Held}
use pcap_constrictor_afpacke.Capture.Recvmsg.{
  frame, no_data, no_buffers, Socket, new_capture, recvmsg_capture,
}
use pcap_constrictor_afpacke.Capture.Recvmsg
use pcap_constrictor_afpacke.Capture.Recvmsg.Opening as RecvmsgOpening
use pcap_constrictor_afpacke.Capture.Recvmsg.Received.{
  AnySocket, answers_left, IsFirstFrame, receive_next-IsReceived,
}
use pcap_constrictor_afpacke.Capture.Ring.{filled, filled_in_poll, polled, poll_ready, poll_timeout}
use pcap_constrictor_afpacke.Capture.Ring.Holding as RingHolding
use pcap_constrictor_afpacke.Capture.Ring.Opening as RingOpening
use pcap_constrictor_afpacke.Config.{default_config}
use pcap_constrictor_afpacke.Live.{Surroundings, has_elapsed, Live, live_loop}
use pcap_constrictor_afpacke.Loader.{codes, whole, load_from_string}
use pcap_constrictor_afpacke.Main.{System, new_ring_capture}
use pcap_constrictor_afpacke.Tests.FeedExamples.{sample_file}
use pcap_constrictor_afpacke.Tests.Samples.{ipv4_tcp_packet, tls_record}
use pcap_constrictor_afpacke.Tests.RingExamples.{small_abi, full_block}
use pcap_constrictor_afpacke.Tests.LoaderExamples.{settings}

abbrev live_frame : Bytes
live_frame = ipv4_tcp_packet (tls_record 0x16 (replicate 3 7)) 12345 443 1 0x18

abbrev no_signal : Surroundings
no_signal = record { signal_before = none; elapsed = λ n. n }

abbrev sample_socket : Socket
sample_socket = record {
  capture = record (new_capture 65535) { is_open = true; interface_index = 1 };
  answers =
      no_data
      ∷ frame live_frame (record { sll_pkttype = 0; sll_ifindex = 2 }) 1700000000
      ∷ no_buffers
      ∷ frame (1 ∷ 2 ∷ []) (record { sll_pkttype = 4; sll_ifindex = 0 }) 1700000001
      ∷ [];
  kernel_stats = none;
}

abbrev none_held : Held
none_held = record { sockets = 0; memberships = 0; rings = 0; mappings = 0 }

abbrev socket_answers : RecvmsgOpening.OpenAnswers
socket_answers = record {
  ifindex = 1;
  socket = true;
  receive_timeout = true;
  bind = false;
  membership = true;
  drop_membership = false;
}

abbrev ring_answers : RingOpening.OpenAnswers
ring_answers = record {
  page_size = 64;
  ifindex = 1;
  socket = true;
  version = true;
  rx_ring = true;
  mapping = true;
  bind = true;
  membership = true;
  empty_ring = false;
  closing = record { drop_membership = true; empty_ring = false };
}

abbrev sample_system : System
sample_system = record {
  config_file = whole settings;
  input_file = sample_file;
  output_room = some 4096;
  held = none_held;
  surroundings = no_signal;
  kernel_stats = none;
  recvmsg_open = socket_answers;
  recvmsg_answers = [];
  abi = small_abi;
  ring_open = ring_answers;
  ring_memory = record { is_user = false; contents = replicate 64 0 } ∷ [];
  ring_events =
      polled poll_timeout
      ∷ filled_in_poll 0 full_block
      ∷ polled poll_ready
      ∷ filled 0 full_block
      ∷ [];
}

receive_next-IsReceived_example :
    IsReceived AnySocket answers_left none 4 (Recvmsg.receive_next none 0 sample_socket)
    × IsFirstFrame 65535 (sample_socket.answers) (Recvmsg.receive_next none 0 sample_socket)
receive_next-IsReceived_example = receive_next-IsReceived none 0 sample_socket (omega arith)

open_capture-IsHeldBy_example :
    let r =
      RecvmsgOpening.open_capture (new_capture 65535) (codes "lo") true socket_answers none_held in
    RecvmsgOpening.IsHeldBy none_held r.1 r.2 × (r.1.is_open ≡ r.0)
open_capture-IsHeldBy_example =
    RecvmsgOpening.open_capture-IsHeldBy none_held none_held (new_capture 65535) (codes "lo") true
      socket_answers
      (record {
        sockets_are = refl;
        memberships_are = refl;
        mode_of_open = λ e. absurd (ground (arith, e));
        index_of_open = λ e. absurd (ground (arith, e));
      })

open_capture-IsOpened_example : RingHolding.IsOpened none_held (
    RingOpening.open_capture small_abi new_ring_capture
      (load_from_string settings).config.capture
      ring_answers
      none_held)
open_capture-IsOpened_example =
    RingHolding.open_capture-IsOpened small_abi none_held none_held new_ring_capture
      (load_from_string settings).config.capture ring_answers
      (record {
        sockets_are = refl;
        rings_are = refl;
        mappings_are = refl;
        memberships_are = refl;
        mode_of_open = λ e. absurd (ground (arith, e));
        index_of_open = λ e. absurd (ground (arith, e));
      })

accumulate_decision_stats_agree_example :
    Live.accumulate_decision_stats empty_stats quic_long_header
    ≡ Offline.accumulate_decision_stats empty_stats quic_long_header
accumulate_decision_stats_agree_example =
    accumulate_decision_stats_agree empty_stats quic_long_header

has_elapsed_lem_example :
    (2 ≤ 9223372036 → (has_elapsed 2500000000 2 ≡ true) ↔ (2 * 1000000000 ≤ 2500000000))
    × (9223372037 ≤ 2 → 2 ≤ 18446744073 → has_elapsed 2500000000 2 ≡ true)
has_elapsed_lem_example = has_elapsed_lem 2500000000 2

abbrev sample_live : Live Socket
sample_live = record {
  capture = sample_socket;
  writer = new_writer (record { contents = []; room = 4096 }) 65535;
  policy = new_policy default_config;
  stats = empty_stats;
  tests = 0;
  readings = 0;
}

live_loop-process_example :
    (live_loop recvmsg_capture no_signal default_config 5 sample_live >>= outcome)
    ≡ process (sink_of sample_live) (packets_of (sample_socket.capture) (sample_socket.answers))
live_loop-process_example =
    live_loop-process default_config (λ n. n) refl refl 5 sample_live refl tt (omega arith)
