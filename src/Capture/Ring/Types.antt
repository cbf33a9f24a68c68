-- ===== src/Capture/Ring/Types.antt =====
-- The state of AfPacketTpacketV3Capture, the memory that it shares with the kernel, and the
-- kernel's answers.
use pcap_constrictor_afpacke.Base.{
  ℕ, zero, suc, ◌/◌, ◌==◌, min, Bool, true, not, ◌&&◌, if◌then◌else◌, Option, List, [], ◌∷◌,
}
use pcap_constrictor_afpacke.Bytes.{Bytes}
use pcap_constrictor_afpacke.Capture.{AfPacketKernelStats, LinkAddress}

-- `tpacket_block_desc` and `tpacket3_hdr`, as far as they are read.
pub record BlockDesc : Type 0 where
  pub num_pkts : ℕ
  pub offset_to_first_pkt : ℕ

pub record PacketHeader : Type 0 where
  pub tp_next_offset : ℕ
  pub tp_sec : ℕ
  pub tp_nsec : ℕ
  pub tp_snaplen : ℕ
  pub tp_len : ℕ
  pub tp_mac : ℕ

pub record Abi : Type 0 where
  pub header_size : ℕ
  pub aligned_header_size : ℕ
  pub address_size : ℕ
  pub aligned_address_size : ℕ
  pub alignment : ℕ
  pub read_desc : Bytes → BlockDesc
  pub read_header : Bytes → PacketHeader
  pub read_address : Bytes → LinkAddress

-- The fields of the object; a descriptor and a pointer are there or not.
pub record AfPacketTpacketV3Capture : Type 0 where
  pub has_socket : Bool
  pub has_mapping : Bool
  pub block_size : ℕ
  pub block_count : ℕ
  pub poll_timeout_ms : ℕ
  pub current_block_index : ℕ
  pub current_block_packet_index : ℕ
  pub current_block_packet_count : ℕ
  pub current_packet_offset : ℕ
  pub current_block_active : Bool
  pub promiscuous_enabled : Bool
  pub has_error : Bool
  pub interface_index : ℕ
  pub non_fatal_receive_errors : ℕ

pub record Block : Type 0 where
  pub is_user : Bool
  pub contents : Bytes

-- What `poll` answers: EINTR, another errno, no event in time, an event, an event of an error.
pub data PollAnswer : Type 0 where
  poll_interrupted poll_failed poll_timeout poll_ready poll_error : PollAnswer

-- What comes from the kernel, in this order: a block that it fills and hands over before the
-- program tests a status the next time, one that it fills while `poll` waits, and what `poll`
-- answers.
pub data RingEvent : Type 0 where
  filled filled_in_poll : (index : ℕ) (contents : Bytes) → RingEvent
  polled : PollAnswer → RingEvent

-- The object with the memory of its ring, the events to come, and the answer of
-- PACKET_STATISTICS.
pub record Ring : Type 0 where
  pub capture : AfPacketTpacketV3Capture
  pub blocks : List Block
  pub events : List RingEvent
  pub kernel_stats : Option AfPacketKernelStats

abbrev pub set_block : ℕ → Block → List Block → List Block
set_block index block [] = []
set_block zero block (b ∷ blocks) = block ∷ blocks
set_block (suc index) block (b ∷ blocks) = b ∷ set_block index block blocks

-- The kernel writes to a block that it owns, and hands it over.
abbrev pub hand_over : Bytes → Block → Block
hand_over contents block =
    if block.is_user then block else record { is_user = true; contents = contents }

abbrev pub kernel_fill : ℕ → Bytes → List Block → List Block
kernel_fill index contents [] = []
kernel_fill zero contents (b ∷ blocks) = hand_over contents b ∷ blocks
kernel_fill (suc index) contents (b ∷ blocks) = b ∷ kernel_fill index contents blocks

-- `ConvertNanosecondsToMicroseconds`
unfoldable pub convert_nanoseconds_to_microseconds : ℕ → ℕ
convert_nanoseconds_to_microseconds nanoseconds = min (nanoseconds / 1000) 999999

-- Is `current_block_base` not a null pointer?
abbrev pub has_block_base : AfPacketTpacketV3Capture → Bool
has_block_base capture = capture.has_mapping && not (capture.block_count == 0)

-- `SetError`
abbrev pub set_error : Ring → Ring
set_error ring = record ring { capture = record (ring.capture) { has_error = true } }
