-- ===== src/Capture/Ring/Blockwise.antt =====
-- Calls of ReceiveNext while a block is read: each gives the next packet of its chain.
use pcap_constrictor_afpacke.Base.{
  ◌∙◌, ℕ, ◌+◌, ◌<◌, ◌≡◌, refl, sym, ap, subst, arith, Bool, true, not, ltb, leb, some, List, ◌∷◌,
  length, get_elem?, if-elim,
}
use pcap_constrictor_afpacke.Bytes.{Bytes, u32_mod, subspan}
use pcap_constrictor_afpacke.Capture.{
  AfPacketReceiveStatus, packet, timeout, interrupted, error, access, ◌>>=◌,
}
use pcap_constrictor_afpacke.Packet.{CapturedPacket}
use pcap_constrictor_afpacke.Capture.Ring.{
  Abi, PacketHeader, AfPacketTpacketV3Capture, Ring, is_bad_packet, advance, give_packet,
  active_turn, Turn, onward, gives, current_block, has_block_base,
}
use pcap_constrictor_afpacke.Capture.Ring.Delivery.{
  Gives, Gives-bind, bytes_at, IsChain, IsPacketOf, subspan-Gives, not_bad, read_packet-Gives,
  IsAdvanced, advance-IsAdvanced,
}

-- The active block, and the headers of the packets that it still has to give.
pub record IsReading (abi : Abi) (contents : Bytes) (ring : Ring) (hs : List PacketHeader)
    : Type 0 where
  pub socket_ok : ring.capture.has_socket ≡ true
  pub mapping_ok : ring.capture.has_mapping ≡ true
  pub some_block : 0 < ring.capture.block_count
  pub active : ring.capture.current_block_active ≡ true
  pub is_user : Bool
  pub found :
      get_elem? ring.blocks ring.capture.current_block_index
      ≡ some (record { is_user = is_user; contents = contents })
  pub inside : length contents ≡ ring.capture.block_size
  pub size_lt : ring.capture.block_size < u32_mod
  pub count_lt : ring.capture.current_block_packet_count < u32_mod
  pub count_is :
      ring.capture.current_block_packet_index + length hs ≡ ring.capture.current_block_packet_count
  pub chain : IsChain abi ring.capture.block_size contents ring.capture.current_packet_offset hs

module _ (abi : Abi) (contents : Bytes) (h : PacketHeader) (hs : List PacketHeader) where
  -- The packet of the header at this place of the block, and the ring behind it.
  abbrev pub IsNextPacket : ℕ → AfPacketReceiveStatus → Ring → Type 0
  IsNextPacket offset (packet p) after =
      IsPacketOf contents offset h p
      × IsReading abi contents after hs
      × (0 < length hs → after.capture.current_packet_offset ≡ offset + h.tp_next_offset)
  IsNextPacket offset timeout after = ⊥
  IsNextPacket offset interrupted after = ⊥
  IsNextPacket offset error after = ⊥

  abbrev pub IsNextTurn : Ring → Turn → Type 0
  IsNextTurn ring (onward test after) = ⊥
  IsNextTurn ring (gives status test after) =
      IsNextPacket ring.capture.current_packet_offset status after

  current_block-Gives :
      (ring : Ring)
      → IsReading abi contents ring (h ∷ hs)
      → Gives (λ b. b.contents ≡ contents) (current_block ring)
  unfolding current_block
  current_block-Gives ring v =
      subst (λ m. Gives (λ b. b.contents ≡ contents) (access m)) (sym v.found) refl

  module _ (ring : Ring) (v : IsReading abi contents ring (h ∷ hs)) where
    abbrev Behind : CapturedPacket → AfPacketTpacketV3Capture → Type 0
    Behind p capture =
        IsNextPacket ring.capture.current_packet_offset (packet p)
          (record ring { capture = capture })

    advanced-Behind :
        (p : CapturedPacket) (after : AfPacketTpacketV3Capture)
        → IsPacketOf contents ring.capture.current_packet_offset h p
        → IsAdvanced abi ring.capture.block_size contents ring.capture h hs after
        → Behind p after
    advanced-Behind p after q (index, offset, errors, same, count, next, chain) =
        subst (Behind p) (sym same) (
          q,
          record {
            socket_ok = v.socket_ok;
            mapping_ok = v.mapping_ok;
            some_block = v.some_block;
            active = v.active;
            is_user = v.is_user;
            found = v.found;
            inside = v.inside;
            size_lt = v.size_lt;
            count_lt = v.count_lt;
            count_is = count;
            chain = chain;
          },
          next,
        )

    give_packet-Gives : (test : ℕ) → Gives (IsNextTurn ring) (give_packet abi test ring contents h)
    unfolding give_packet
    give_packet-Gives test =
        let size = ring.capture.block_size in
        let fits = v.chain.2 in
        let le = v.chain.3 in
        if-elim (Gives (IsNextTurn ring)) (is_bad_packet ring.capture h) _ _
          (λ e.
            absurd
              (ground (arith, e, not_bad abi size contents v.inside ring.capture refl h fits le)))
          (λ e.
            Gives-bind (IsPacketOf contents ring.capture.current_packet_offset h) (IsNextTurn ring)
              _ _ (read_packet-Gives abi size contents v.inside ring.capture refl h fits le)
              (λ p q. advanced-Behind p (advance abi h ring.capture) q (
                advance-IsAdvanced abi size contents ring.capture h hs refl v.size_lt v.count_lt
                  v.count_is v.chain.4 v.chain.5)))

    -- The bytes of the header give the header.
    read_header-Gives :
        (test : ℕ) (b : Bytes)
        → b ≡ bytes_at contents ring.capture.current_packet_offset abi.header_size
        → Gives (IsNextTurn ring) (give_packet abi test ring contents (abi.read_header b))
    read_header-Gives test b e =
        subst (λ x. Gives (IsNextTurn ring) (give_packet abi test ring contents x))
          (sym (ap (abi.read_header) e ∙ v.chain.1)) (give_packet-Gives test)

    header_there :
        Gives
          (λ b. b ≡ bytes_at contents ring.capture.current_packet_offset abi.header_size)
          (access (subspan contents ring.capture.current_packet_offset abi.header_size))
    header_there =
        subspan-Gives abi ring.capture.block_size contents v.inside
          ring.capture.current_packet_offset abi.header_size v.chain.0

    pub active_turn-Gives : (test : ℕ) → Gives (IsNextTurn ring) (active_turn abi test ring)
    unfolding active_turn
    active_turn-Gives test =
        let capture = ring.capture in
        if-elim (Gives (IsNextTurn ring))
          (leb capture.current_block_packet_count capture.current_block_packet_index) _ _
          (λ e. absurd (ground (arith, e, v.count_is)))
          (λ e.
            if-elim (Gives (IsNextTurn ring)) (not (has_block_base capture)) _ _
              (λ n. absurd (ground (arith, n, v.mapping_ok, v.some_block)))
              (λ n.
                if-elim (Gives (IsNextTurn ring))
                  (ltb capture.block_size (capture.current_packet_offset + abi.header_size)) _ _
                  (λ o. absurd (ground (arith, o, v.chain.0)))
                  (λ o.
                    Gives-bind (λ b. b.contents ≡ contents) (IsNextTurn ring) (current_block ring) _
                      (current_block-Gives ring v) (λ b same. given test (b.contents) (sym same)))))
      where
        given :
            (test : ℕ) (c : Bytes)
            → contents ≡ c
            → Gives (IsNextTurn ring) (
                access (subspan c ring.capture.current_packet_offset abi.header_size)
                >>= (λ b. give_packet abi test ring c (abi.read_header b)))
        given test c same =
            subst
              (λ c. Gives (IsNextTurn ring) (
                access (subspan c ring.capture.current_packet_offset abi.header_size)
                >>= (λ b. give_packet abi test ring c (abi.read_header b))))
              same
              (Gives-bind
                (λ b. b ≡ bytes_at contents ring.capture.current_packet_offset abi.header_size)
                (IsNextTurn ring) _ _ header_there (read_header-Gives test))
