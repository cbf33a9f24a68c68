-- ===== src/Capture/Ring/Layout.antt =====
-- Which configurations ValidateRingConfiguration accepts.
use Prim.Native.Nat.{◌∣◌}
use native.Mathlib.Nat.{mod-eq-zero_of_dvd, dvd_of_mod-eq-zero}
use pcap_constrictor_afpacke.Base.{ℕ, ◌+◌, ◌%◌, ◌≤◌, ◌<◌, ◌≡◌, ◌≢◌, ◌↔◌, true, arith}
use pcap_constrictor_afpacke.Bytes.{u32_mod}
use pcap_constrictor_afpacke.Config.{CaptureOptions}
use pcap_constrictor_afpacke.Capture.Ring.Types.{Abi}
use pcap_constrictor_afpacke.Capture.Ring.Opening.{
  validate_ring_layout, validate_ring_configuration,
}

-- A ring of some blocks, each of them whole pages and whole frames, and of aligned frames that
-- have room for the header and the address.
pub record IsRingLayout (abi : Abi) (page_size : ℕ) (config : CaptureOptions) : Type 0 where
  pub some_bytes : config.ring_block_size ≢ 0
  pub some_blocks : config.ring_block_count ≢ 0
  pub some_frame : config.ring_frame_size ≢ 0
  pub whole_frames : config.ring_frame_size ∣ config.ring_block_size
  pub whole_pages : page_size ≢ 0 → page_size ∣ config.ring_block_size
  pub aligned : abi.alignment ∣ config.ring_frame_size
  pub room : abi.aligned_header_size + abi.aligned_address_size ≤ config.ring_frame_size

-- With a page size under 2 ^ 32, ValidateRingConfiguration accepts a configuration if and only
-- if the block size, the block count and the frame size are not 0, the frame size divides the
-- block size, the page size, if it is not 0, divides the block size too, the alignment divides
-- the frame size, and a frame has room for the aligned header and the aligned address.
pub validate_ring_configuration_iff :
    (abi : Abi) (page_size : ℕ) (config : CaptureOptions)
    → page_size < u32_mod
    → (validate_ring_configuration abi page_size config ≡ true) ↔ IsRingLayout abi page_size config
unfolding validate_ring_configuration validate_ring_layout
validate_ring_configuration_iff abi page_size config small =
    let same : page_size % u32_mod ≡ page_size = omega (arith, small) in
    (
      λ h. record {
        some_bytes = ground (arith, h);
        some_blocks = ground (arith, h);
        some_frame = ground (arith, h);
        whole_frames = dvd_of_mod-eq-zero _ (ground (arith, h));
        whole_pages = λ p. dvd_of_mod-eq-zero _ (ground (arith, h, same, p));
        aligned = dvd_of_mod-eq-zero _ (ground (arith, h));
        room = ground (arith, h);
      },
      λ l. ground (
        arith,
        l.some_bytes,
        l.some_blocks,
        l.some_frame,
        l.room,
        same,
        mod-eq-zero_of_dvd _ l.whole_frames,
        mod-eq-zero_of_dvd _ l.aligned,
        λ (p : page_size ≢ 0). mod-eq-zero_of_dvd page_size (l.whole_pages p),
      ),
    )
