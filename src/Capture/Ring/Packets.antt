-- ===== src/Capture/Ring/Packets.antt =====
-- ReceiveNext: the packets of the current block, and the way to the next block.
use pcap_constrictor_afpacke.Base.{
  ℕ, zero, suc, ◌+◌, ◌*◌, ◌%◌, ◌==◌, Bool, false, not, ◌&&◌, ◌||◌, ltb, leb, if◌then◌else◌, Option,
  none, some, length,
}
use pcap_constrictor_afpacke.Bytes.{Bytes, u32_mod, subspan}
use pcap_constrictor_afpacke.Capture.{
  AfPacketReceiveStatus, packet, interrupted, error, is_positive, map_packet_type_to_direction,
  stop_requested, Call, fault, returns, access, ◌>>=◌, Capture, AfPacketKernelStats,
}
use pcap_constrictor_afpacke.Packet.{CapturedPacket, PacketDirection, unknown}
use pcap_constrictor_afpacke.Stats.{add_count}
use pcap_constrictor_afpacke.Capture.Ring.Types.{
  PacketHeader, Abi, AfPacketTpacketV3Capture, Ring, convert_nanoseconds_to_microseconds,
  has_block_base, set_error,
}
use pcap_constrictor_afpacke.Capture.Ring.Blocks.{
  current_block, release_current_block, discard_current_block, activate_current_block,
}
use pcap_constrictor_afpacke.Capture.Ring.Waiting.{wait_for_ready_block}

-- A round of the loop goes on with the next test, or returns a status.
pub data Turn : Type 0 where
  onward : ℕ → Ring → Turn
  gives : AfPacketReceiveStatus → ℕ → Ring → Turn

-- The tests of a packet's header that have its block discarded.
unfoldable pub is_bad_packet : AfPacketTpacketV3Capture → PacketHeader → Bool
is_bad_packet capture header =
    let packet_data_offset = capture.current_packet_offset + header.tp_mac in
    let packet_data_end = packet_data_offset + header.tp_snaplen in
    ltb capture.block_size packet_data_offset
    || ltb capture.block_size packet_data_end
    || ltb header.tp_len header.tp_snaplen

-- The direction and the interface, from the address behind the header if it is all there.
unfoldable pub read_link :
    Abi → AfPacketTpacketV3Capture → PacketHeader → Bytes → Call (PacketDirection × ℕ)
read_link abi capture header contents =
    let sockaddr_offset = capture.current_packet_offset + abi.aligned_header_size in
    if leb (abi.aligned_header_size + abi.address_size) header.tp_mac
      && leb sockaddr_offset capture.block_size
      && leb (sockaddr_offset + abi.address_size) (capture.current_packet_offset + header.tp_mac)
    then (do
      address_bytes ← access (subspan contents sockaddr_offset abi.address_size)
      let packet_address = abi.read_address address_bytes in
          returns (
            map_packet_type_to_direction packet_address.sll_pkttype,
            if is_positive packet_address.sll_ifindex
                then packet_address.sll_ifindex
                else capture.interface_index,
          ))
    else returns (unknown, capture.interface_index)

-- Nanoseconds since the epoch.
abbrev pub packet_time : PacketHeader → ℕ
packet_time header =
    header.tp_sec * 1000000000 + convert_nanoseconds_to_microseconds header.tp_nsec * 1000

unfoldable pub read_packet :
    Abi → AfPacketTpacketV3Capture → PacketHeader → Bytes → Call CapturedPacket
read_packet abi capture header contents = do
  (direction, packet_ifindex) ← read_link abi capture header contents
  data_bytes ←
      access (subspan contents (capture.current_packet_offset + header.tp_mac) header.tp_snaplen)
  returns (record {
    packet = record {
      data_span = data_bytes;
      captured_len = header.tp_snaplen;
      original_len = header.tp_len;
    };
    timestamp = packet_time header;
    ifindex = packet_ifindex;
    direction = direction;
  })

-- To the next packet of the block; a chain that leaves the block ends it.
unfoldable pub advance : Abi → PacketHeader → AfPacketTpacketV3Capture → AfPacketTpacketV3Capture
advance abi header capture =
    let index = (capture.current_block_packet_index + 1) % u32_mod in
    let next_packet_offset = capture.current_packet_offset + header.tp_next_offset in
    if not (ltb index capture.current_block_packet_count)
    then record capture { current_block_packet_index = index }
    else if header.tp_next_offset == 0
        || ltb capture.block_size (next_packet_offset + abi.header_size)
    then record capture {
      non_fatal_receive_errors = add_count capture.non_fatal_receive_errors 1;
      current_block_packet_index = capture.current_block_packet_count;
    }
    else record capture {
      current_block_packet_index = index;
      current_packet_offset = next_packet_offset % u32_mod;
    }

abbrev pub go_on : ℕ → Call Ring → Call Turn
go_on test next = do ring ← next; returns (onward test ring)

-- A header inside of the block.
unfoldable pub give_packet : Abi → ℕ → Ring → Bytes → PacketHeader → Call Turn
give_packet abi test ring contents header =
    if is_bad_packet ring.capture header then go_on test (discard_current_block ring) else (do
      p ← read_packet abi ring.capture header contents
      returns (gives (packet p) test (record ring { capture = advance abi header ring.capture })))

-- The branch on an active block.
unfoldable pub active_turn : Abi → ℕ → Ring → Call Turn
active_turn abi test ring =
    if leb ring.capture.current_block_packet_count ring.capture.current_block_packet_index
    then go_on test (release_current_block ring)
    else if not (has_block_base ring.capture)
    then returns (gives error test (set_error ring))
    else if ltb ring.capture.block_size (ring.capture.current_packet_offset + abi.header_size)
    then go_on test (discard_current_block ring)
    else (do
      block ← current_block ring
      header_bytes ←
          access (subspan block.contents ring.capture.current_packet_offset abi.header_size)
      give_packet abi test ring block.contents (abi.read_header header_bytes))

-- Behind a call of `WaitForReadyBlock`.
unfoldable pub waited_turn : Abi → Option AfPacketReceiveStatus → ℕ → Ring → Call Turn
waited_turn abi (some wait_status) test ring = returns (gives wait_status test ring)
waited_turn abi none test ring = do
  (active, ring) ← activate_current_block abi ring
  if not active && ring.capture.has_error
      then returns (gives error test ring)
      else returns (onward test ring)

unfoldable pub turn : Abi → Option ℕ → ℕ → Ring → Call Turn
turn abi signal test ring =
    if stop_requested signal test
    then returns (gives interrupted (test + 1) ring)
    else if ring.capture.current_block_active
    then active_turn abi (test + 1) ring
    else (do
      (wait_status, test, ring) ← wait_for_ready_block signal (test + 1) ring
      waited_turn abi wait_status test ring)

abbrev pub Received : Type 0
Received = Call (AfPacketReceiveStatus × ℕ × Ring)

-- The loop, for as many rounds as the fuel; a fuel that is too small is a fault too.
unfoldable pub receive_loop : ℕ → Abi → Option ℕ → ℕ → Ring → Received
receive_loop zero abi signal test ring = fault
receive_loop (suc fuel) abi signal test ring = do
  turned ← turn abi signal test ring
  elim turned [
    | onward test ring ↦ receive_loop fuel abi signal test ring
    | gives status test ring ↦ returns (status, test, ring)
  ]

-- Every block can be released once, and once more with each event.
abbrev pub enough_fuel : Ring → ℕ
enough_fuel ring = 2 * (length ring.blocks + length ring.events) + 2

-- `ReceiveNext`
unfoldable pub receive_next : Abi → Option ℕ → ℕ → Ring → Received
receive_next abi signal test ring =
    if not ring.capture.has_socket || not ring.capture.has_mapping
    then returns (error, test, set_error ring)
    else receive_loop (enough_fuel ring) abi signal test
        (record ring { capture = record (ring.capture) { has_error = false } })

-- `TryReadKernelStats`
unfoldable pub try_read_kernel_stats : Ring → Option AfPacketKernelStats
try_read_kernel_stats ring = if ring.capture.has_socket then ring.kernel_stats else none

abbrev pub tpacket_v3_capture : Abi → Capture Ring
tpacket_v3_capture abi = record {
  receive_next = receive_next abi;
  non_fatal_receive_errors = λ ring. ring.capture.non_fatal_receive_errors;
  try_read_kernel_stats = try_read_kernel_stats;
}
