-- ===== src/Capture/Ring/Invariant.antt =====
-- The state of the ring between two rounds, and the moves of its current block.
use pcap_constrictor_afpacke.Base.{
  ℕ, ◌+◌, ◌-◌, ◌*◌, ◌%◌, ◌≤◌, ◌<◌, ◌≡◌, ◌≢◌, refl, arith, Bool, true, false, not, ◌&&◌,
  if◌then◌else◌, Option, none, some, length, get_elem?, if-elim,
}
use pcap_constrictor_afpacke.Bytes.{u32_mod}
use pcap_constrictor_afpacke.Capture.{access, Returns, Returns-bind}
use pcap_constrictor_afpacke.Capture.Ring.{
  Block, Ring, current_block, released, release_current_block, count_discard, discard_current_block,
}
use pcap_constrictor_afpacke.Capture.Ring.Owned.{
  users, IsOwned, AllSized, AllFilled, give_back, length-set_block, users-give_back,
  AllSized-give_back, get_block,
}

-- The fields of an active block.
abbrev pub IsActive : Ring → Type 0
IsActive ring =
    IsOwned ring.capture.current_block_index ring.blocks
    × (ring.capture.current_block_packet_index ≤ ring.capture.current_block_packet_count)
    × (ring.capture.current_block_packet_count ≤ ring.capture.block_size)

pub record IsRing (ring : Ring) : Type 0 where
  pub socket_ok : ring.capture.has_socket ≡ true
  pub mapping_ok : ring.capture.has_mapping ≡ true
  pub count_is : length ring.blocks ≡ ring.capture.block_count
  pub index_lt : ring.capture.current_block_index < ring.capture.block_count
  pub count_lt : ring.capture.block_count < u32_mod
  pub size_lt : ring.capture.block_size < u32_mod
  pub sized : AllSized ring.capture.block_size ring.blocks
  pub fills : AllFilled ring.capture.block_size ring.events
  pub active_ok : ring.capture.current_block_active ≡ true → IsActive ring

-- What bounds the rounds: the program's blocks and the events, twice, and the step to activate.
abbrev pub rounds_left : Ring → ℕ
rounds_left ring =
    2 * (users ring.blocks + length ring.events)
    + (if ring.capture.current_block_active then 0 else 1)

-- The blocks whose packets are still to be counted, and those of the active block.
abbrev pub blocks_left : Ring → ℕ
blocks_left ring =
    users ring.blocks + length ring.events - (if ring.capture.current_block_active then 1 else 0)

abbrev pub current_left : Ring → ℕ
current_left ring =
    if ring.capture.current_block_active
    then ring.capture.current_block_packet_count - ring.capture.current_block_packet_index
    else 0

-- What bounds the packets and the timeouts.
abbrev pub packets_left : Ring → ℕ
packets_left ring = blocks_left ring * (ring.capture.block_size + 1) + current_left ring

-- The block goes back to the kernel.
pub record IsReleased (ring after : Ring) : Type 0 where
  pub valid : IsRing after
  pub inactive : after.capture.current_block_active ≡ false
  pub same_size : after.capture.block_size ≡ ring.capture.block_size
  pub same_events : after.events ≡ ring.events
  pub one_less : users after.blocks + 1 ≡ users ring.blocks

mod_index : (i n : ℕ) → n ≢ 0 → (i + 1) % u32_mod % n < n
mod_index i n h = ground (arith, h)

-- The block at this place, whose bytes are as many as they should be.
abbrev pub IsFound : Ring → Block → Type 0
IsFound ring b =
    (get_elem? ring.blocks ring.capture.current_block_index ≡ some b)
    × (length b.contents ≡ ring.capture.block_size)

pub current_block-IsFound :
    (ring : Ring) → IsRing ring → Returns (IsFound ring) (current_block ring)
unfolding current_block
current_block-IsFound ring v =
    let (b, found, size) =
      get_block ring.capture.block_size ring.capture.current_block_index ring.blocks v.sized
        (omega (arith, v.index_lt, v.count_is)) in
    by_look (get_elem? ring.blocks ring.capture.current_block_index) found size
  where
    by_look :
        (m : Option Block)
        → {b : Block} → m ≡ some b
        → length b.contents ≡ ring.capture.block_size
        → Returns (λ c. (m ≡ some c) × (length c.contents ≡ ring.capture.block_size)) (access m)
    by_look none e s = absurd (ground (arith, e))
    by_look (some c) e s = (refl, ground (arith, e, s))

pub release_current_block-IsReleased :
    (ring : Ring)
    → IsRing ring
    → IsOwned ring.capture.current_block_index ring.blocks
    → Returns (IsReleased ring) (release_current_block ring)
unfolding release_current_block
release_current_block-IsReleased ring v o =
    let index = ring.capture.current_block_index in
    let is_released : (b : Block) → IsFound ring b → IsReleased ring (released ring b) = λ b f.
      record {
        valid = record {
          socket_ok = v.socket_ok;
          mapping_ok = v.mapping_ok;
          count_is = omega (arith, v.count_is, length-set_block index (give_back b) ring.blocks);
          index_lt =
              mod_index index ring.capture.block_count (λ e. absurd (omega (arith, e, v.index_lt)));
          count_lt = v.count_lt;
          size_lt = v.size_lt;
          sized = AllSized-give_back ring.capture.block_size index b ring.blocks v.sized f.0;
          fills = v.fills;
          active_ok = λ e. absurd (ground (arith, e));
        };
        inactive = refl;
        same_size = refl;
        same_events = refl;
        one_less = users-give_back index b ring.blocks o f.0;
      } in
    if-elim (Returns (IsReleased ring))
      (not ring.capture.current_block_active && not ring.capture.has_mapping) _ _
      (λ h. absurd (ground (arith, h, v.mapping_ok)))
      (λ h.
        Returns-bind (IsFound ring) (IsReleased ring) _ _ (current_block-IsFound ring v)
          is_released)

-- The error and its counter may change.
abbrev pub with_errors : Ring → Bool → ℕ → Ring
with_errors ring has_error count = record ring {
  capture = record (ring.capture) { has_error = has_error; non_fatal_receive_errors = count };
}

pub with_errors-IsRing :
    (ring : Ring) (has_error : Bool) (count : ℕ)
    → IsRing ring
    → IsRing (with_errors ring has_error count)
with_errors-IsRing ring has_error count v = record {
  socket_ok = v.socket_ok;
  mapping_ok = v.mapping_ok;
  count_is = v.count_is;
  index_lt = v.index_lt;
  count_lt = v.count_lt;
  size_lt = v.size_lt;
  sized = v.sized;
  fills = v.fills;
  active_ok = v.active_ok;
}

pub discard_current_block-IsReleased :
    (ring : Ring)
    → IsRing ring
    → IsOwned ring.capture.current_block_index ring.blocks
    → Returns (IsReleased (count_discard ring)) (discard_current_block ring)
unfolding discard_current_block
discard_current_block-IsReleased ring v o =
    release_current_block-IsReleased (count_discard ring) (with_errors-IsRing ring false _ v) o
