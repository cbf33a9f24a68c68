-- ===== src/Capture/Ring/Delivery.antt =====
-- The packets of a block that the kernel has filled as its documentation says.
use pcap_constrictor_afpacke.Base.{
  ℕ, suc, ◌+◌, ◌%◌, ◌≤◌, ◌<◌, ◌≡◌, ◌≢◌, refl, sym, subst, arith, false, not, ◌&&◌, ◌||◌, ltb, leb,
  ◌==◌, List, [], ◌∷◌, length, take, drop, if-elim,
}
use pcap_constrictor_afpacke.Bytes.{Bytes, u32_mod, subspan, subspan_lem}
use pcap_constrictor_afpacke.Capture.{Call, fault, blocked, returns, access, ◌>>=◌}
use pcap_constrictor_afpacke.Packet.{CapturedPacket}
use pcap_constrictor_afpacke.Capture.Ring.{
  Abi, PacketHeader, AfPacketTpacketV3Capture, is_bad_packet, read_link, read_packet, packet_time,
  advance,
}
use pcap_constrictor_afpacke.Capture.Ring.Turns.{moved}

-- The call returns, and what it returns satisfies `P`.
abbrev pub Gives {ℓ} : {A : Type ℓ} → (A → Type 0) → Call A → Type 0
Gives P fault = ⊥
Gives P blocked = ⊥
Gives P (returns a) = P a

pub Gives-bind {ℓ κ} :
    {A : Type ℓ} {B : Type κ} (P : A → Type 0) (Q : B → Type 0) (m : Call A) (f : A → Call B)
    → Gives P m
    → ((a : A) → P a → Gives Q (f a))
    → Gives Q (m >>= f)
Gives-bind P Q fault f h k = absurd h
Gives-bind P Q blocked f h k = absurd h
Gives-bind P Q (returns a) f h k = k a h

-- The bytes at this place of a block.
abbrev pub bytes_at : Bytes → ℕ → ℕ → Bytes
bytes_at contents offset count = take count (drop offset contents)

-- What a packet has of its header at this place of the block: its bytes, lengths and time.
abbrev pub IsPacketOf : Bytes → ℕ → PacketHeader → CapturedPacket → Type 0
IsPacketOf contents offset h p =
    (p.packet.data_span ≡ bytes_at contents (offset + h.tp_mac) h.tp_snaplen)
    × (p.packet.captured_len ≡ h.tp_snaplen)
    × (p.packet.original_len ≡ h.tp_len)
    × (p.timestamp ≡ packet_time h)

-- A packet for each of the headers, from this place on, in their order.
abbrev pub IsDelivered : Bytes → ℕ → List PacketHeader → List CapturedPacket → Type 0
IsDelivered contents offset [] [] = Unit {0}
IsDelivered contents offset [] (p ∷ ps) = ⊥
IsDelivered contents offset (h ∷ hs) [] = ⊥
IsDelivered contents offset (h ∷ hs) (p ∷ ps) =
    IsPacketOf contents offset h p × IsDelivered contents (offset + h.tp_next_offset) hs ps

module _ (abi : Abi) (size : ℕ) (contents : Bytes) where
  -- Headers that follow one another in the block, each with its data inside of it.
  abbrev pub IsChain : ℕ → List PacketHeader → Type 0
  IsChain offset [] = Unit {0}
  IsChain offset (h ∷ hs) =
      (offset + abi.header_size ≤ size)
      × (abi.read_header (bytes_at contents offset abi.header_size) ≡ h)
      × (offset + h.tp_mac + h.tp_snaplen ≤ size)
      × (h.tp_snaplen ≤ h.tp_len)
      × (0 < length hs → h.tp_next_offset ≢ 0)
      × IsChain (offset + h.tp_next_offset) hs

  module _ (inside : length contents ≡ size) where
    pub subspan-Gives :
        (offset count : ℕ)
        → offset + count ≤ size
        → Gives (λ b. b ≡ bytes_at contents offset count) (access (subspan contents offset count))
    subspan-Gives offset count h =
        subst (λ m. Gives (λ b. b ≡ bytes_at contents offset count) (access m))
          (sym (subspan_lem contents offset count (omega (arith, h, inside)))) refl

    module _ (capture : AfPacketTpacketV3Capture) (same : capture.block_size ≡ size)
        (h : PacketHeader) (fits : capture.current_packet_offset + h.tp_mac + h.tp_snaplen ≤ size)
        (le : h.tp_snaplen ≤ h.tp_len) where
      pub not_bad : is_bad_packet capture h ≡ false
      unfolding is_bad_packet
      not_bad = ground (arith, fits, le, same)

      read_link-Gives : Gives (λ link. Unit {0}) (read_link abi capture h contents)
      unfolding read_link
      read_link-Gives =
          let offset = capture.current_packet_offset + abi.aligned_header_size in
          let is_there =
            leb (abi.aligned_header_size + abi.address_size) h.tp_mac
            && leb offset capture.block_size
            && leb (offset + abi.address_size) (capture.current_packet_offset + h.tp_mac) in
          if-elim (Gives (λ link. Unit {0})) is_there _ _
            (λ e.
              Gives-bind (λ b. b ≡ bytes_at contents offset abi.address_size) (λ link. Unit {0})
                (access (subspan contents offset abi.address_size)) _
                (subspan-Gives offset abi.address_size (ground (arith, fits, e))) (λ b u. tt))
            (λ e. tt)

      pub read_packet-Gives :
          Gives
            (IsPacketOf contents capture.current_packet_offset h)
            (read_packet abi capture h contents)
      unfolding read_packet
      read_packet-Gives =
          let offset = capture.current_packet_offset + h.tp_mac in
          Gives-bind (λ link. Unit {0}) (IsPacketOf contents capture.current_packet_offset h) _ _
            read_link-Gives
            (λ link u.
              Gives-bind (λ b. b ≡ bytes_at contents offset h.tp_snaplen)
                (IsPacketOf contents capture.current_packet_offset h)
                (access (subspan contents offset h.tp_snaplen)) _
                (subspan-Gives offset h.tp_snaplen fits) (λ b n. (n, refl, refl, refl)))

  -- `advance` goes to the next header of the chain.
  abbrev pub IsAdvanced :
      AfPacketTpacketV3Capture
      → PacketHeader
      → List PacketHeader
      → AfPacketTpacketV3Capture
      → Type 0
  IsAdvanced capture h hs after =
      (index : ℕ) × (offset : ℕ) × (errors : ℕ) × (after ≡ moved abi capture index offset errors)
      × (index + length hs ≡ capture.current_block_packet_count)
      × (0 < length hs → offset ≡ capture.current_packet_offset + h.tp_next_offset)
      × IsChain offset hs

  pub advance-IsAdvanced :
      (capture : AfPacketTpacketV3Capture) (h : PacketHeader) (hs : List PacketHeader)
      → capture.block_size ≡ size
      → size < u32_mod
      → capture.current_block_packet_count < u32_mod
      → capture.current_block_packet_index + suc (length hs) ≡ capture.current_block_packet_count
      → (0 < length hs → h.tp_next_offset ≢ 0)
      → IsChain (capture.current_packet_offset + h.tp_next_offset) hs
      → IsAdvanced capture h hs (advance abi h capture)
  unfolding advance
  advance-IsAdvanced capture h [] same small count_lt count next chain =
      let index = (capture.current_block_packet_index + 1) % u32_mod in
      if-elim (IsAdvanced capture h []) (not (ltb index capture.current_block_packet_count)) _ _
        (λ e. (
          index,
          capture.current_packet_offset,
          capture.non_fatal_receive_errors,
          refl,
          omega arith,
          λ l. absurd (omega (arith, l)),
          tt,
        ))
        (λ e. absurd (ground (arith, e, count)))
  advance-IsAdvanced capture h (h' ∷ hs) same small count_lt count next chain =
      let index = (capture.current_block_packet_index + 1) % u32_mod in
      let offset = capture.current_packet_offset + h.tp_next_offset in
      let no_wrap : offset % u32_mod ≡ offset = omega (arith, chain.0, small) in
      if-elim (IsAdvanced capture h (h' ∷ hs)) (not (ltb index capture.current_block_packet_count))
        _ _ (λ e. absurd (ground (arith, e, count)))
        (λ e.
          if-elim (IsAdvanced capture h (h' ∷ hs))
            (h.tp_next_offset == 0 || ltb capture.block_size (offset + abi.header_size)) _ _
            (λ b. absurd (ground (arith, b, next, chain.0, same)))
            (λ b. (
              index,
              offset % u32_mod,
              capture.non_fatal_receive_errors,
              refl,
              omega arith,
              λ l. no_wrap,
              subst (λ o. IsChain o (h' ∷ hs)) (sym no_wrap) chain,
            )))
