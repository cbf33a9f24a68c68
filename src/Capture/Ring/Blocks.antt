-- ===== src/Capture/Ring/Blocks.antt =====
-- ReleaseCurrentBlock, DiscardCurrentBlock and ActivateCurrentBlock.
use pcap_constrictor_afpacke.Base.{
  ◌+◌, ◌%◌, ◌/◌, ◌==◌, Bool, true, false, not, ◌&&◌, ◌||◌, ltb, if◌then◌else◌, get_elem?,
}
use pcap_constrictor_afpacke.Bytes.{u32_mod}
use pcap_constrictor_afpacke.Capture.{Call, returns, access, ◌>>=◌}
use pcap_constrictor_afpacke.Stats.{add_count}
use pcap_constrictor_afpacke.Capture.Ring.Types.{
  BlockDesc, Abi, AfPacketTpacketV3Capture, Block, Ring, set_block, has_block_base, set_error,
}

-- The block at `current_block_base`.
unfoldable pub current_block : Ring → Call Block
current_block ring = access (get_elem? ring.blocks ring.capture.current_block_index)

-- The block goes back to the kernel, and the next one in the ring is current.
abbrev pub released : Ring → Block → Ring
released ring block = record ring {
  capture = record (ring.capture) {
    current_block_active = false;
    current_block_packet_index = 0;
    current_block_packet_count = 0;
    current_packet_offset = 0;
    current_block_index =
        (ring.capture.current_block_index + 1) % u32_mod % ring.capture.block_count;
  };
  blocks =
      set_block ring.capture.current_block_index (record block { is_user = false }) ring.blocks;
}

unfoldable pub release_current_block : Ring → Call Ring
release_current_block ring =
    if not ring.capture.current_block_active && not ring.capture.has_mapping
    then returns ring
    else (do block ← current_block ring; returns (released ring block))

abbrev pub count_discard : Ring → Ring
count_discard ring = record ring {
  capture = record (ring.capture) {
    non_fatal_receive_errors = add_count ring.capture.non_fatal_receive_errors 1;
    has_error = false;
  };
}

unfoldable pub discard_current_block : Ring → Call Ring
discard_current_block ring = release_current_block (count_discard ring)

-- The test of a block's description.
unfoldable pub is_bad_block : Abi → AfPacketTpacketV3Capture → BlockDesc → Bool
is_bad_block abi capture desc =
    ltb capture.block_size desc.offset_to_first_pkt
    || ltb capture.block_size (desc.offset_to_first_pkt + abi.header_size)
    || ltb (capture.block_size / abi.header_size) desc.num_pkts

abbrev pub activated : Ring → BlockDesc → Ring
activated ring desc = record ring {
  capture = record (ring.capture) {
    current_block_packet_index = 0;
    current_block_packet_count = desc.num_pkts;
    current_packet_offset = desc.offset_to_first_pkt;
    current_block_active = true;
  };
}

abbrev pub with_result : Bool → Ring → Bool × Ring
with_result b ring = (b, ring)

-- A block that the program owns.
unfoldable pub activate_owned : Abi → Ring → BlockDesc → Call (Bool × Ring)
activate_owned abi ring desc =
    if desc.num_pkts == 0
    then (do ring ← release_current_block ring; returns (with_result false ring))
    else if is_bad_block abi ring.capture desc
    then (do ring ← discard_current_block ring; returns (with_result false ring))
    else returns (true, activated ring desc)

unfoldable pub activate_current_block : Abi → Ring → Call (Bool × Ring)
activate_current_block abi ring =
    let cleared : Ring = record ring { capture = record (ring.capture) { has_error = false } } in
    if not (has_block_base cleared.capture) then returns (false, set_error cleared) else (do
      block ← current_block cleared
      if not block.is_user
          then returns (false, cleared)
          else activate_owned abi cleared (abi.read_desc block.contents))
