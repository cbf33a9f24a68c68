-- ===== src/Capture/Recvmsg.antt =====
-- src/capture/AfPacketCapture.cpp: the capture that reads one packet with each call of the kernel.
pub mod Opening
pub mod Received
pub mod Order
use pcap_constrictor_afpacke.Base.{
  ℕ, ◌+◌, ◌%◌, max, Bool, true, false, Option, none, some, List, [], ◌∷◌, length, take,
  if◌then◌else◌,
}
use pcap_constrictor_afpacke.Bytes.{Bytes, u32_mod}
use pcap_constrictor_afpacke.Packet.{CapturedPacket}
use pcap_constrictor_afpacke.Stats.{add_count}
use pcap_constrictor_afpacke.Capture.{
  AfPacketReceiveStatus, packet, timeout, interrupted, error, AfPacketKernelStats, LinkAddress,
  is_positive, map_packet_type_to_direction, stop_requested, Capture, Call, fault, blocked, returns,
}

-- The fields of the object; the socket is open or not.
pub record AfPacketCapture : Type 0 where
  pub is_open : Bool
  pub promiscuous_enabled : Bool
  pub buffer_size : ℕ
  pub has_error : Bool
  pub interface_index : ℕ
  pub non_fatal_receive_errors : ℕ

-- What `recvfrom` answers: a frame with its address and the time behind the call, or an errno:
-- EINTR, EAGAIN, ENOBUFS or ENOMEM, another.
pub data ReceiveAnswer : Type 0 where
  frame : (data_bytes : Bytes) (address : LinkAddress) (now : ℕ) → ReceiveAnswer
  signal_came no_data no_buffers failed : ReceiveAnswer

-- The object with its socket: the answers to come, and those of PACKET_STATISTICS.
pub record Socket : Type 0 where
  pub capture : AfPacketCapture
  pub answers : List ReceiveAnswer
  pub kernel_stats : Option AfPacketKernelStats

abbrev pub Received : Type 0
Received = Call (AfPacketReceiveStatus × ℕ × Socket)

-- The packet of a frame, of which the kernel copies what the buffer takes.
unfoldable pub received_packet : AfPacketCapture → Bytes → LinkAddress → ℕ → CapturedPacket
received_packet capture data_bytes address now =
    let buffer = take capture.buffer_size data_bytes in
    let received_length = length buffer % u32_mod in
    record {
      packet = record {
        data_span = take received_length buffer;
        captured_len = received_length;
        original_len = received_length;
      };
      timestamp = now;
      ifindex =
          if is_positive address.sll_ifindex then address.sll_ifindex else capture.interface_index;
      direction = map_packet_type_to_direction address.sll_pkttype;
    }

-- `++non_fatal_receive_errors_`
abbrev pub count_error : AfPacketCapture → AfPacketCapture
count_error capture = record capture {
  non_fatal_receive_errors = add_count capture.non_fatal_receive_errors 1;
}

abbrev with_answers : Socket → AfPacketCapture → List ReceiveAnswer → Socket
with_answers socket capture answers = record socket { capture = capture; answers = answers }

-- The loop: a call for each answer.
unfoldable pub receive_loop :
    Option ℕ → ℕ → Socket → AfPacketCapture → List ReceiveAnswer → Received
receive_loop signal test socket capture [] = blocked
receive_loop signal test socket capture (frame data_bytes address now ∷ answers) = returns (
  packet (received_packet capture data_bytes address now),
  test,
  with_answers socket capture answers,
)
receive_loop signal test socket capture (signal_came ∷ answers) =
    let rest = receive_loop signal (test + 1) socket capture answers in
    if stop_requested signal test
    then returns (interrupted, test + 1, with_answers socket capture answers)
    else rest
receive_loop signal test socket capture (no_data ∷ answers) = returns (
  if stop_requested signal test then interrupted else timeout,
  test + 1,
  with_answers socket capture answers,
)
receive_loop signal test socket capture (no_buffers ∷ answers) =
    let rest = receive_loop signal (test + 1) socket (count_error capture) answers in
    if stop_requested signal test
    then returns (interrupted, test + 1, with_answers socket (count_error capture) answers)
    else rest
receive_loop signal test socket capture (failed ∷ answers) =
    returns
      (error, test, with_answers socket (record (count_error capture) { has_error = true }) answers)

-- `ReceiveNext`
unfoldable pub receive_next : Option ℕ → ℕ → Socket → Received
receive_next signal test socket =
    if socket.capture.is_open
    then receive_loop signal test socket (record socket.capture { has_error = false })
        socket.answers
    else returns
        (error, test, record socket { capture = record (socket.capture) { has_error = true } })

-- `TryReadKernelStats`
unfoldable pub try_read_kernel_stats : Socket → Option AfPacketKernelStats
try_read_kernel_stats socket = if socket.capture.is_open then socket.kernel_stats else none

-- The constructor.
abbrev pub new_capture : ℕ → AfPacketCapture
new_capture buffer_size = record {
  is_open = false;
  promiscuous_enabled = false;
  buffer_size = max buffer_size 65535;
  has_error = false;
  interface_index = 0;
  non_fatal_receive_errors = 0;
}

abbrev pub recvmsg_capture : Capture Socket
recvmsg_capture = record {
  receive_next = receive_next;
  non_fatal_receive_errors = λ socket. socket.capture.non_fatal_receive_errors;
  try_read_kernel_stats = try_read_kernel_stats;
}
