-- ===== src/Capture.antt =====
-- src/capture: what the two captures share. `Capture` is the type parameter `CaptureT` of the loop
-- in src/main.cpp, with the state of the object and of its socket.
pub mod Sockets
pub mod Recvmsg
pub mod Ring
use pcap_constrictor_afpacke.Base.{
  ℕ, ◌≡◌, ◌≤◌, ◌<◌, true, length, Bool, false, ◌&&◌, ◌==◌, if◌then◌else◌, Option, none, some, ltb,
  leb,
}
use pcap_constrictor_afpacke.Bytes.{u32_mod}
use pcap_constrictor_afpacke.Packet.{
  CapturedPacket, PacketDirection, unknown, incoming, outgoing, broadcast, multicast, other_host,
}

-- The packet is the one that the out parameter is set to.
pub data AfPacketReceiveStatus : Type 0 where
  packet : CapturedPacket → AfPacketReceiveStatus
  timeout interrupted error : AfPacketReceiveStatus

pub record AfPacketKernelStats : Type 0 where
  pub packets : ℕ
  pub drops : ℕ

-- `sockaddr_ll`; the index is the 32 bits of an `int`.
pub record LinkAddress : Type 0 where
  pub sll_pkttype : ℕ
  pub sll_ifindex : ℕ

-- `address.sll_ifindex > 0`
abbrev pub is_positive : ℕ → Bool
is_positive n = ltb 0 n && ltb n 2147483648

-- `MapPacketTypeToDirection`, by the constants kAfPacketType.
unfoldable pub map_packet_type_to_direction : ℕ → PacketDirection
map_packet_type_to_direction packet_type =
    if packet_type == 4
    then outgoing
    else if packet_type == 0
    then incoming
    else if packet_type == 1
    then broadcast
    else if packet_type == 2
    then multicast
    else if packet_type == 3
    then other_host
    else unknown

-- `g_stop_requested`: a signal sets it before the test of that number, or never, and nothing
-- clears it. The tests are numbered from the start of the run.
abbrev pub stop_requested : Option ℕ → ℕ → Bool
stop_requested none test = false
stop_requested (some signal) test = leb signal test

-- A call returns, waits for a kernel that has no answer yet, or reads outside of its memory.
pub data Call {ℓ} (A : Type ℓ) : Type ℓ where
  fault blocked : Call A
  returns : A → Call A

infixl 5 ◌>>=◌
abbrev pub ◌>>=◌ {ℓ κ} : {A : Type ℓ} {B : Type κ} → Call A → (A → Call B) → Call B
fault >>= f = fault
blocked >>= f = blocked
returns a >>= f = f a

abbrev pub access {ℓ} : {A : Type ℓ} → Option A → Call A
access none = fault
access (some a) = returns a

-- No read outside, and what is returned satisfies `P`.
abbrev pub Returns {ℓ} : {A : Type ℓ} → (A → Type 0) → Call A → Type 0
Returns P fault = ⊥
Returns P blocked = Unit {0}
Returns P (returns a) = P a

pub Returns-bind {ℓ κ} :
    {A : Type ℓ} {B : Type κ} (P : A → Type 0) (Q : B → Type 0) (m : Call A) (f : A → Call B)
    → Returns P m
    → ((a : A) → P a → Returns Q (f a))
    → Returns Q (m >>= f)
Returns-bind P Q fault f h k = absurd h
Returns-bind P Q blocked f h k = tt
Returns-bind P Q (returns a) f h k = k a h

-- `receive_next` takes the signal and the number of the next test.
pub record Capture (S : Type 0) : Type 0 where
  pub receive_next : Option ℕ → ℕ → S → Call (AfPacketReceiveStatus × ℕ × S)
  pub non_fatal_receive_errors : S → ℕ
  pub try_read_kernel_stats : S → Option AfPacketKernelStats

-- The lengths of a packet that is given: its bytes are there, and 32 bits hold their number.
pub record IsCaptured (p : CapturedPacket) : Type 0 where
  pub captured_is : p.packet.captured_len ≡ length p.packet.data_span
  pub original_ge : p.packet.captured_len ≤ p.packet.original_len
  pub fits : p.packet.captured_len < u32_mod

module _ {S : Type 0} (valid : S → Type 0) (budget : S → ℕ) where
  abbrev pub IsReceived : Option ℕ → ℕ → Call (AfPacketReceiveStatus × ℕ × S) → Type 0
  IsReceived signal bound fault = ⊥
  IsReceived signal bound blocked = Unit {0}
  IsReceived signal bound (returns (packet p, test, state)) =
      valid state × (budget state < bound) × IsCaptured p
  IsReceived signal bound (returns (timeout, test, state)) = valid state × (budget state < bound)
  IsReceived signal bound (returns (interrupted, test, state)) =
      valid state × (budget state ≤ bound) × (stop_requested signal test ≡ true)
  IsReceived signal bound (returns (error, test, state)) = valid state × (budget state ≤ bound)

  -- What the loop relies on: a call on a valid state leaves one, and uses up some of a budget that
  -- bounds how many packets and timeouts there are; it is only interrupted by a signal.
  pub record IsCapture (capture : Capture S) : Type 0 where
    pub received :
        (signal : Option ℕ) (test : ℕ) (state : S)
        → valid state
        → IsReceived signal (budget state) (capture.receive_next signal test state)
