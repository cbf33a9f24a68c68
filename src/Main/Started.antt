-- ===== src/Main/Started.antt =====
-- A run of the program with any files, signal, clock and answers of the kernel.
use pcap_constrictor_afpacke.Base.{
  ℕ, suc, ◌+◌, ◌*◌, ◌≤◌, ◌<◌, ◌≡◌, ◌≢◌, refl, max, true, false, not, [], length, ◌==◌, arith, Holds,
  Holds-bind, if-elim, ◌-◌,
}
use pcap_constrictor_afpacke.Bytes.{u32_mod}
use pcap_constrictor_afpacke.Capture.Recvmsg.{Socket, recvmsg_capture, new_capture}
use pcap_constrictor_afpacke.Capture.Recvmsg.Opening as RecvmsgOpening
use pcap_constrictor_afpacke.Capture.Recvmsg.Received.{
  AnySocket, answers_left, recvmsg_capture-IsCapture,
}
use pcap_constrictor_afpacke.Capture.Ring.{Abi, AfPacketTpacketV3Capture, tpacket_v3_capture}
use pcap_constrictor_afpacke.Capture.Ring.Invariant.{IsRing, packets_left}
use pcap_constrictor_afpacke.Capture.Ring.Opening.{
  OpenAnswers, validate_ring_layout, validate_ring_configuration, Opened, open_mapped, open_socket,
  open_capture,
}
use pcap_constrictor_afpacke.Capture.Ring.Owned.{users, AllSized, AllFilled}
use pcap_constrictor_afpacke.Capture.Ring.Received.{tpacket_v3_capture-IsCapture}
use pcap_constrictor_afpacke.Capture.Sockets.{Held}
use pcap_constrictor_afpacke.Config.{
  PolicyConfig, CaptureOptions, CaptureBackend, recvmsg, tpacket_v3,
}
use pcap_constrictor_afpacke.Live.Run.{IsRun, run_capture_loop-IsRun}
use pcap_constrictor_afpacke.Loader.{is_empty}
use pcap_constrictor_afpacke.Loader.Bounds.{IsConfig}
use pcap_constrictor_afpacke.Main.{
  System, LiveRun, interface_required, not_opened, with_recvmsg, with_tpacket_v3, new_ring_capture,
  run_recvmsg, started_ring, run_tpacket_v3, run_live_capture,
}

-- The object that `Open` leaves if it answers true.
record IsStarted (config : CaptureOptions) (capture : AfPacketTpacketV3Capture) : Type 0 where
  has_socket : capture.has_socket ≡ true
  has_mapping : capture.has_mapping ≡ true
  block_size : capture.block_size ≡ config.ring_block_size
  block_count : capture.block_count ≡ config.ring_block_count
  at_first : capture.current_block_index ≡ 0
  inactive : capture.current_block_active ≡ false
  some_block : config.ring_block_count ≢ 0

abbrev WhenStarted : CaptureOptions → Opened → Type 0
WhenStarted config r = r.0 ≡ true → IsStarted config r.1

validate_ring_configuration-count :
    (abi : Abi) (page_size : ℕ) (config : CaptureOptions)
    → validate_ring_configuration abi page_size config ≡ true
    → config.ring_block_count ≢ 0
unfolding validate_ring_configuration validate_ring_layout
validate_ring_configuration-count abi page_size config h = ground (arith, h)

open_socket-WhenStarted :
    (capture : AfPacketTpacketV3Capture) (config : CaptureOptions) (answers : OpenAnswers)
    (held : Held)
    → config.ring_block_count ≢ 0
    → WhenStarted config (open_socket capture config answers held)
unfolding open_socket open_mapped
open_socket-WhenStarted capture config answers held n e = ground (arith, e, n)

open_capture-WhenStarted :
    (abi : Abi) (capture : AfPacketTpacketV3Capture) (config : CaptureOptions)
    (answers : OpenAnswers) (held : Held)
    → WhenStarted config (open_capture abi capture config answers held)
unfolding open_capture
open_capture-WhenStarted abi capture config answers held =
    if-elim (WhenStarted config) (is_empty config.interface) _ _ (λ e f. absurd (ground (arith, f)))
      (λ e.
        if-elim (WhenStarted config)
          (not (validate_ring_configuration abi answers.page_size config)) _ _
          (λ e f. absurd (ground (arith, f)))
          (λ ok.
            if-elim (WhenStarted config) (answers.ifindex == 0) _ _
              (λ e f. absurd (ground (arith, f)))
              (λ n.
                if-elim (WhenStarted config) (not answers.socket) _ _
                  (λ e f. absurd (ground (arith, f)))
                  (λ s. open_socket-WhenStarted _ config answers _ (
                    validate_ring_configuration-count abi answers.page_size config
                      (ground (arith, ok)))))))

-- The ring's memory is what `mmap` documents: the blocks that were asked for.
pub record IsMemory (system : System) (config : CaptureOptions) : Type 0 where
  pub blocks_are : length system.ring_memory ≡ config.ring_block_count
  pub sized : AllSized config.ring_block_size system.ring_memory
  pub fills : AllFilled config.ring_block_size system.ring_events

started_ring-IsRing :
    (system : System) (config : PolicyConfig) (capture : AfPacketTpacketV3Capture)
    → IsConfig config
    → IsMemory system config.capture
    → IsStarted config.capture capture
    → IsRing (started_ring system capture)
started_ring-IsRing system config capture c m s = record {
  socket_ok = s.has_socket;
  mapping_ok = s.has_mapping;
  count_is = omega (arith, m.blocks_are, s.block_count);
  index_lt = omega (arith, s.at_first, s.block_count, s.some_block);
  count_lt = omega (arith, s.block_count, c.block_count);
  size_lt = omega (arith, s.block_size, c.block_size);
  sized = rw s.block_size m.sized;
  fills = rw s.block_size m.fills;
  active_ok = λ e. absurd (ground (arith, e, s.inactive));
}

-- No counter can wrap: there are fewer answers than this, and packets that the ring can give.
abbrev pub most_packets : ℕ
most_packets = 4294967295

pub most_packets_lt : most_packets < u32_mod
most_packets_lt = omega arith

pub record IsBounded (system : System) (config : CaptureOptions) : Type 0 where
  pub answers_le : length system.recvmsg_answers ≤ most_packets
  pub ring_le :
      (users system.ring_memory + length system.ring_events) * (config.ring_block_size + 1)
      ≤ most_packets

module _ (system : System) (config : PolicyConfig) where
  -- The loop of the capture that the configuration names has ended or waits.
  abbrev pub IsLiveRun : LiveRun → Type 0
  IsLiveRun interface_required = config.capture.interface ≡ []
  IsLiveRun not_opened = config.capture.interface ≢ []
  IsLiveRun (with_recvmsg round) =
      (config.capture.backend ≡ recvmsg)
      × IsRun recvmsg_capture AnySocket answers_left recvmsg_capture-IsCapture system.surroundings
          config most_packets most_packets_lt round
  IsLiveRun (with_tpacket_v3 round) =
      (config.capture.backend ≡ tpacket_v3)
      × IsRun (tpacket_v3_capture system.abi) IsRing packets_left
          (tpacket_v3_capture-IsCapture system.abi) system.surroundings config most_packets
          most_packets_lt round

  run_recvmsg-IsLiveRun :
      config.capture.interface ≢ []
      → config.capture.backend ≡ recvmsg
      → IsBounded system config.capture
      → Holds IsLiveRun (run_recvmsg system config)
  unfolding run_recvmsg
  run_recvmsg-IsLiveRun i backend bounded =
      let r =
        RecvmsgOpening.open_capture (new_capture (max config.capture.max_capture_len 65535))
          config.capture.interface config.capture.promiscuous system.recvmsg_open system.held in
      let socket : Socket = record {
        capture = r.1;
        answers = system.recvmsg_answers;
        kernel_stats = system.kernel_stats;
      } in
      if-elim (Holds IsLiveRun) (not r.0) _ _ (λ h. i)
        (λ h.
          Holds-bind
            (IsRun recvmsg_capture AnySocket answers_left recvmsg_capture-IsCapture
              system.surroundings config most_packets most_packets_lt)
            IsLiveRun _ _
            (run_capture_loop-IsRun recvmsg_capture AnySocket answers_left recvmsg_capture-IsCapture
              system.surroundings config most_packets most_packets_lt system.output_room
              (suc (length system.recvmsg_answers)) socket tt (omega arith) bounded.answers_le)
            (λ round o. (backend, o)))

  started_ring-le :
      (capture : AfPacketTpacketV3Capture)
      → IsStarted config.capture capture
      → IsBounded system config.capture
      → packets_left (started_ring system capture) ≤ most_packets
  started_ring-le capture s bounded =
      let all = users system.ring_memory + length system.ring_events in
      let same : all - 0 ≡ all = omega arith in
      rw s.inactive (rw s.block_size (rw same (omega (arith, bounded.ring_le))))

  run_tpacket_v3-IsLiveRun :
      config.capture.interface ≢ []
      → config.capture.backend ≡ tpacket_v3
      → IsConfig config
      → IsMemory system config.capture
      → IsBounded system config.capture
      → Holds IsLiveRun (run_tpacket_v3 system config)
  unfolding run_tpacket_v3
  run_tpacket_v3-IsLiveRun i backend c m bounded =
      let r =
        open_capture system.abi new_ring_capture config.capture system.ring_open system.held in
      let started : r.0 ≡ true → IsStarted config.capture r.1 =
        open_capture-WhenStarted system.abi new_ring_capture config.capture system.ring_open
          system.held in
      if-elim (Holds IsLiveRun) (not r.0) _ _ (λ h. i)
        (λ h.
          let s = started (ground (arith, h)) in
          Holds-bind
            (IsRun (tpacket_v3_capture system.abi) IsRing packets_left
              (tpacket_v3_capture-IsCapture system.abi) system.surroundings config most_packets
              most_packets_lt)
            IsLiveRun _ _
            (run_capture_loop-IsRun (tpacket_v3_capture system.abi) IsRing packets_left
              (tpacket_v3_capture-IsCapture system.abi) system.surroundings config most_packets
              most_packets_lt system.output_room (suc (packets_left (started_ring system r.1)))
              (started_ring system r.1) (started_ring-IsRing system config r.1 c m s) (omega arith)
              (started_ring-le r.1 s bounded))
            (λ round o. (backend, o)))

  -- X
  pub run_live_capture-IsLiveRun :
      IsConfig config
      → IsMemory system config.capture
      → IsBounded system config.capture
      → Holds IsLiveRun (run_live_capture system config)
  unfolding run_live_capture
  run_live_capture-IsLiveRun c m bounded =
      if-elim (Holds IsLiveRun) (is_empty config.capture.interface) _ _ (λ h. ground (arith, h))
        (λ h. by_backend config.capture.backend refl (ground (arith, h)))
    where
      by_backend :
          (b : CaptureBackend)
          → config.capture.backend ≡ b
          → config.capture.interface ≢ []
          → Holds IsLiveRun (elim b [
            | recvmsg ↦ run_recvmsg system config
            | tpacket_v3 ↦ run_tpacket_v3 system config
          ])
      by_backend recvmsg e i = run_recvmsg-IsLiveRun i e bounded
      by_backend tpacket_v3 e i = run_tpacket_v3-IsLiveRun i e c m bounded
