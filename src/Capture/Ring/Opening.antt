-- ===== src/Capture/Ring/Opening.antt =====
-- `Open`, `Close` and the tests of the configuration in src/capture/AfPacketTpacketV3Capture.cpp.
use pcap_constrictor_afpacke.Base.{
  ℕ, ◌+◌, ◌-◌, ◌*◌, ◌/◌, ◌%◌, max, Bool, true, false, not, ◌&&◌, ◌||◌, ltb, ◌==◌, if◌then◌else◌,
  Option, none, some,
}
use pcap_constrictor_afpacke.Bytes.{u32_mod}
use pcap_constrictor_afpacke.Config.{CaptureOptions}
use pcap_constrictor_afpacke.Loader.{
  ConfigMessage, zero_ring_block_size, zero_ring_block_count, zero_ring_frame_size,
  block_size_not_multiple, is_empty,
}
use pcap_constrictor_afpacke.Capture.Sockets.{
  Held, take_socket, close_socket, enable_promiscuous_membership, disable_promiscuous_membership,
}
use pcap_constrictor_afpacke.Capture.Ring.Types.{Abi, AfPacketTpacketV3Capture}

-- If the calls of `Close` succeed whose answers are ignored; the kernel refuses to empty a ring that
-- is mapped.
pub record CloseAnswers : Type 0 where
  pub drop_membership : Bool
  pub empty_ring : Bool

-- What the system answers to the calls of `Open`: the interface's index, or 0, if each call
-- succeeds, and its page size, or 0; `empty_ring` is for the end of an `Open` that fails, and
-- `closing` for the `Close` at its beginning.
pub record OpenAnswers : Type 0 where
  pub page_size : ℕ
  pub ifindex : ℕ
  pub socket : Bool
  pub version : Bool
  pub rx_ring : Bool
  pub mapping : Bool
  pub bind : Bool
  pub membership : Bool
  pub empty_ring : Bool
  pub closing : CloseAnswers

-- `ValidateRingLayout`; its texts are those of the loader.
unfoldable pub validate_ring_layout : CaptureOptions → Option ConfigMessage
validate_ring_layout config =
    if config.ring_block_size == 0
    then some zero_ring_block_size
    else if config.ring_block_count == 0
    then some zero_ring_block_count
    else if config.ring_frame_size == 0
    then some zero_ring_frame_size
    else if not (config.ring_block_size % config.ring_frame_size == 0)
    then some block_size_not_multiple
    else none

-- `ValidateRingConfiguration`
unfoldable pub validate_ring_configuration : Abi → ℕ → CaptureOptions → Bool
validate_ring_configuration abi page_size config = elim (validate_ring_layout config) [
  | some message ↦ false
  | none ↦
      if not (page_size == 0) && not (config.ring_block_size % (page_size % u32_mod) == 0)
      then false
      else if not (config.ring_frame_size % abi.alignment == 0)
      then false
      else not (ltb config.ring_frame_size (abi.aligned_header_size + abi.aligned_address_size))
]

abbrev pub frame_count : CaptureOptions → ℕ
frame_count config = config.ring_block_size / config.ring_frame_size * config.ring_block_count

-- `setsockopt` of PACKET_RX_RING with an empty request: does the socket still have its ring?
unfoldable pub empty_ring : Bool → Held → Bool × Held
empty_ring answer held =
    if answer then (false, record held { rings = held.rings - 1 }) else (true, held)

abbrev pub give_mapping : Held → Held
give_mapping held = record held { mappings = held.mappings - 1 }

unfoldable pub close :
    AfPacketTpacketV3Capture → CloseAnswers → Held → AfPacketTpacketV3Capture × Held
close capture answers held =
    let (has_membership, held₁) =
      if capture.has_socket && capture.promiscuous_enabled
      then disable_promiscuous_membership answers.drop_membership capture.has_socket
          capture.interface_index held
      else (false, held) in
    let (has_ring, held₂) =
      if capture.has_socket then empty_ring answers.empty_ring held₁ else (false, held₁) in
    let held₃ = if capture.has_mapping then give_mapping held₂ else held₂ in
    (
      record capture {
        has_socket = false;
        has_mapping = false;
        block_size = 0;
        block_count = 0;
        poll_timeout_ms = 1000;
        current_block_index = 0;
        current_block_packet_index = 0;
        current_block_packet_count = 0;
        current_packet_offset = 0;
        current_block_active = false;
        promiscuous_enabled = false;
        interface_index = 0;
        non_fatal_receive_errors = 0;
      },
      if capture.has_socket then close_socket has_ring has_membership held₃ else held₃,
    )

abbrev pub Opened : Type 0
Opened = Bool × AfPacketTpacketV3Capture × Held

abbrev pub failed_open : AfPacketTpacketV3Capture → Held → Opened
failed_open capture held = (false, record capture { has_error = true }, held)

-- Behind `mmap`.
unfoldable pub open_mapped : AfPacketTpacketV3Capture → CaptureOptions → OpenAnswers → Held → Opened
open_mapped capture config answers held =
    let (enabled, held') =
      if config.promiscuous
      then enable_promiscuous_membership answers.membership held
      else (true, held) in
    let (has_ring, unbound) = empty_ring answers.empty_ring held in
    let (has_ring', left) = empty_ring answers.empty_ring held' in
    if not answers.bind
    then failed_open capture (close_socket has_ring false (give_mapping unbound))
    else if not enabled
    then failed_open capture (close_socket has_ring' false (give_mapping left))
    else (
      true,
      record capture {
        has_socket = true;
        has_mapping = true;
        block_size = config.ring_block_size;
        block_count = config.ring_block_count;
        poll_timeout_ms = max config.block_timeout_ms 1;
        current_block_index = 0;
        current_block_packet_index = 0;
        current_block_packet_count = 0;
        current_packet_offset = 0;
        current_block_active = false;
        promiscuous_enabled = config.promiscuous;
        interface_index = answers.ifindex;
      },
      held',
    )

-- Behind the call that makes the socket.
unfoldable pub open_socket : AfPacketTpacketV3Capture → CaptureOptions → OpenAnswers → Held → Opened
open_socket capture config answers held =
    let with_ring : Held = record held { rings = held.rings + 1 } in
    let (has_ring, emptied) = empty_ring answers.empty_ring with_ring in
    if not answers.version
    then failed_open capture (close_socket false false held)
    else if frame_count config == 0 || ltb 4294967295 (frame_count config)
    then failed_open capture (close_socket false false held)
    else if not answers.rx_ring
    then failed_open capture (close_socket false false held)
    else if not answers.mapping
    then failed_open capture (close_socket has_ring false emptied)
    else open_mapped capture config answers (record with_ring { mappings = with_ring.mappings + 1 })

-- `Open`
unfoldable pub open_capture :
    Abi → AfPacketTpacketV3Capture → CaptureOptions → OpenAnswers → Held → Opened
open_capture abi capture config answers held =
    let (closed, held) = close capture answers.closing held in
    let capture = record closed { has_error = false; non_fatal_receive_errors = 0 } in
    if is_empty config.interface
    then failed_open capture held
    else if not (validate_ring_configuration abi answers.page_size config)
    then failed_open capture held
    else if answers.ifindex == 0
    then failed_open capture held
    else if not answers.socket
    then failed_open capture held
    else open_socket capture config answers (take_socket held)
