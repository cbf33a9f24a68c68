-- ===== src/Capture/Ring/Idle.antt =====
-- A wait of ReceiveNext for a block that the kernel fills.
use pcap_constrictor_afpacke.Base.{
  ℕ, zero, suc, ◌/◌, ◌<◌, ◌≤◌, ◌≡◌, refl, sym, ap, subst, arith, true, false, not, Option, none,
  some, List, [], ◌∷◌, length, get_elem?, if◌then◌else◌, if-elim,
}
use pcap_constrictor_afpacke.Bytes.{Bytes, u32_mod}
use pcap_constrictor_afpacke.Capture.{AfPacketReceiveStatus, returns, access, ◌>>=◌}
use pcap_constrictor_afpacke.Capture.Ring.{
  Abi, PacketHeader, Block, Ring, RingEvent, filled, filled_in_poll, polled, poll_ready,
  kernel_fill, hand_over, has_block_base, current_block, test_block, poll_answered, wait_loop,
  wait_for_ready_block, Waited,
}
use pcap_constrictor_afpacke.Capture.Ring.Delivery.{Gives, IsChain}

abbrev pub filled_block : Bytes → Block
filled_block contents = record { is_user = true; contents = contents }

abbrev handed_over : Bytes → Option Block → Option Block
handed_over contents none = none
handed_over contents (some block) = some (hand_over contents block)

kernel_fill-get_elem? :
    (index : ℕ) (contents old : Bytes) (blocks : List Block)
    → get_elem? blocks index ≡ some (record { is_user = false; contents = old })
    → get_elem? (kernel_fill index contents blocks) index ≡ some (filled_block contents)
kernel_fill-get_elem? index contents old [] e = absurd (grind (arith, e))
kernel_fill-get_elem? zero contents old (b ∷ blocks) e = ap (handed_over contents) e
kernel_fill-get_elem? (suc index) contents old (b ∷ blocks) e =
    kernel_fill-get_elem? index contents old blocks e

-- A block of the program's stays as it is.
kernel_fill-kept :
    (index at : ℕ) (c contents : Bytes) (blocks : List Block)
    → get_elem? blocks at ≡ some (filled_block contents)
    → get_elem? (kernel_fill index c blocks) at ≡ some (filled_block contents)
kernel_fill-kept index at c contents [] e = e
kernel_fill-kept zero zero c contents (b ∷ blocks) e = ap (handed_over c) e
kernel_fill-kept zero (suc at) c contents (b ∷ blocks) e = e
kernel_fill-kept (suc index) zero c contents (b ∷ blocks) e = e
kernel_fill-kept (suc index) (suc at) c contents (b ∷ blocks) e =
    kernel_fill-kept index at c contents blocks e

-- A description of a block with packets, and what the block holds.
pub record IsFilled (abi : Abi) (size : ℕ) (contents : Bytes) (hs : List PacketHeader)
    : Type 0 where
  pub inside : length contents ≡ size
  pub size_lt : size < u32_mod
  pub num_pkts : (abi.read_desc contents).num_pkts ≡ length hs
  pub some_packet : 0 < length hs
  pub count_le : length hs ≤ size / abi.header_size
  pub count_lt : length hs < u32_mod
  pub chain : IsChain abi size contents (abi.read_desc contents).offset_to_first_pkt hs

-- No block is active, and the current one is the kernel's.
pub record IsIdle (ring : Ring) : Type 0 where
  pub socket_ok : ring.capture.has_socket ≡ true
  pub mapping_ok : ring.capture.has_mapping ≡ true
  pub some_block : 0 < ring.capture.block_count
  pub inactive : ring.capture.current_block_active ≡ false
  pub old : Bytes
  pub kernel_owned :
      get_elem? ring.blocks ring.capture.current_block_index
      ≡ some (record { is_user = false; contents = old })

abbrev pub holding : Ring → List Block → List RingEvent → Ring
holding ring blocks events = record ring { blocks = blocks; events = events }

module _ (ring : Ring) (v : IsIdle ring) where
  pub has_base : has_block_base ring.capture ≡ true
  has_base = ground (arith, v.mapping_ok, v.some_block)

  -- A test of the current block goes by its owner.
  test_block-Gives :
      (P : Option AfPacketReceiveStatus × ℕ × Ring → Type 0) (test : ℕ) (blocks : List Block)
      (events : List RingEvent) (block : Block) (polling : Waited)
      → get_elem? blocks ring.capture.current_block_index ≡ some block
      → Gives P
          (if block.is_user then returns (none, test, holding ring blocks events) else polling)
      → Gives P (test_block test (holding ring blocks events) polling)
  unfolding test_block current_block
  test_block-Gives P test blocks events block polling found p =
      if-elim (Gives P) (not (has_block_base ring.capture)) _ _
        (λ e. absurd (ground (arith, e, has_base)))
        (λ e.
          subst
            (λ m. Gives P (
              access m >>= (λ b.
                if b.is_user then returns (none, test, holding ring blocks events) else polling)))
            (sym found) p)

  module _ (contents : Bytes) where
    -- The wait ends with the block at the program.
    abbrev pub IsReady : Option AfPacketReceiveStatus × ℕ × Ring → Type 0
    IsReady (some status, test, after) = ⊥
    IsReady (none, test, after) =
        (blocks : List Block) × (events : List RingEvent) × (after ≡ holding ring blocks events)
        × (get_elem? blocks ring.capture.current_block_index ≡ some (filled_block contents))

    test_block-IsReady :
        (test : ℕ) (blocks : List Block) (events : List RingEvent) (polling : Waited)
        → get_elem? blocks ring.capture.current_block_index ≡ some (filled_block contents)
        → Gives IsReady (test_block test (holding ring blocks events) polling)
    test_block-IsReady test blocks events polling found =
        test_block-Gives IsReady test blocks events (filled_block contents) polling found
          (blocks, events, refl, found)

    wait_loop-IsReady :
        (test : ℕ) (blocks : List Block) (events : List RingEvent)
        → get_elem? blocks ring.capture.current_block_index ≡ some (filled_block contents)
        → Gives IsReady (wait_loop false none test ring blocks events)
    unfolding wait_loop
    wait_loop-IsReady test blocks [] found = test_block-IsReady test blocks [] _ found
    wait_loop-IsReady test blocks (filled index c ∷ es) found =
        wait_loop-IsReady test (kernel_fill index c blocks) es
          (kernel_fill-kept index ring.capture.current_block_index c contents blocks found)
    wait_loop-IsReady test blocks (filled_in_poll index c ∷ es) found =
        test_block-IsReady test blocks (filled_in_poll index c ∷ es) _ found
    wait_loop-IsReady test blocks (polled answer ∷ es) found =
        test_block-IsReady test blocks (polled answer ∷ es) _ found

    -- The status says that the block is the kernel's, `poll` waits while it is filled, and the
    -- status is tested again.
    pub wait-IsReady :
        (test : ℕ) (more : List RingEvent)
        → ring.events
          ≡ filled_in_poll ring.capture.current_block_index contents ∷ polled poll_ready ∷ more
        → Gives IsReady (wait_for_ready_block none test ring)
    unfolding wait_for_ready_block wait_loop poll_answered
    wait-IsReady test more next =
        let index = ring.capture.current_block_index in
        subst (λ es. Gives IsReady (wait_loop false none test ring ring.blocks es)) (sym next)
          (test_block-Gives IsReady test ring.blocks
            (filled_in_poll index contents ∷ polled poll_ready ∷ more) _ _ v.kernel_owned
            (wait_loop-IsReady test (kernel_fill index contents ring.blocks) more
              (kernel_fill-get_elem? index contents (v.old) ring.blocks v.kernel_owned)))
