-- ===== src/Main.antt =====
-- src/main.cpp around the live loop: RunLiveCapture and main.
pub mod Started
pub mod Whole
use pcap_constrictor_afpacke.Base.{
  ℕ, suc, max, Bool, true, false, ◌&&◌, not, Option, none, some, List, [], ◌∷◌, length,
  if◌then◌else◌, ◌>>=◌, ◌==◌,
}
use pcap_constrictor_afpacke.Bytes.{Bytes}
use pcap_constrictor_afpacke.Capture.{AfPacketKernelStats}
use pcap_constrictor_afpacke.Capture.Sockets.{Held}
use pcap_constrictor_afpacke.Capture.Recvmsg.{ReceiveAnswer, Socket, new_capture, recvmsg_capture}
use pcap_constrictor_afpacke.Capture.Recvmsg.Opening as RecvmsgOpening
use pcap_constrictor_afpacke.Capture.Ring.{
  Abi, AfPacketTpacketV3Capture, Block, RingEvent, Ring, tpacket_v3_capture,
}
use pcap_constrictor_afpacke.Capture.Ring.Invariant.{packets_left}
use pcap_constrictor_afpacke.Capture.Ring.Opening as RingOpening
use pcap_constrictor_afpacke.Config.{PolicyConfig, recvmsg, tpacket_v3}
use pcap_constrictor_afpacke.Live.{
  Surroundings, LiveResult, finished, Round, again, waiting, ended, run_capture_loop,
}
use pcap_constrictor_afpacke.Loader.{
  LoadError, ConfigLoadResult, FileText, load_from_file, codes, text_eq, is_empty,
}
use pcap_constrictor_afpacke.Offline
use pcap_constrictor_afpacke.Offline.{OfflinePacketFeedResult}
use pcap_constrictor_afpacke.Reader.{InputFile}

-- What the process finds outside: the files, the signal and the clock, and the kernel's answers
-- to the one capture or the other, with the memory of the ring.
pub record System : Type 0 where
  pub config_file : FileText
  pub input_file : InputFile
  pub output_room : Option ℕ
  pub held : Held
  pub surroundings : Surroundings
  pub kernel_stats : Option AfPacketKernelStats
  pub recvmsg_open : RecvmsgOpening.OpenAnswers
  pub recvmsg_answers : List ReceiveAnswer
  pub abi : Abi
  pub ring_open : RingOpening.OpenAnswers
  pub ring_memory : List Block
  pub ring_events : List RingEvent

-- How RunLiveCapture goes; a round that waits is a run that has not come to its end yet.
pub data LiveRun : Type 0 where
  interface_required not_opened : LiveRun
  with_recvmsg : Round Socket → LiveRun
  with_tpacket_v3 : Round Ring → LiveRun

-- The default member initialisers.
abbrev pub new_ring_capture : AfPacketTpacketV3Capture
new_ring_capture = record {
  has_socket = false;
  has_mapping = false;
  block_size = 0;
  block_count = 0;
  poll_timeout_ms = 1000;
  current_block_index = 0;
  current_block_packet_index = 0;
  current_block_packet_count = 0;
  current_packet_offset = 0;
  current_block_active = false;
  promiscuous_enabled = false;
  has_error = false;
  interface_index = 0;
  non_fatal_receive_errors = 0;
}

unfoldable pub run_recvmsg : System → PolicyConfig → Option LiveRun
run_recvmsg system config =
    let receive_buffer_size = max config.capture.max_capture_len 65535 in
    let (opened, capture, held) =
      RecvmsgOpening.open_capture (new_capture receive_buffer_size) config.capture.interface
        config.capture.promiscuous system.recvmsg_open system.held in
    if not opened then some not_opened else (do
      round ←
          run_capture_loop recvmsg_capture system.surroundings config system.output_room
            (suc (length system.recvmsg_answers))
            (record {
              capture = capture;
              answers = system.recvmsg_answers;
              kernel_stats = system.kernel_stats;
            })
      some (with_recvmsg round))

abbrev pub started_ring : System → AfPacketTpacketV3Capture → Ring
started_ring system capture = record {
  capture = capture;
  blocks = system.ring_memory;
  events = system.ring_events;
  kernel_stats = system.kernel_stats;
}

unfoldable pub run_tpacket_v3 : System → PolicyConfig → Option LiveRun
run_tpacket_v3 system config =
    let (opened, capture, held) =
      RingOpening.open_capture system.abi new_ring_capture config.capture system.ring_open
        system.held in
    if not opened then some not_opened else (do
      round ←
          run_capture_loop (tpacket_v3_capture system.abi) system.surroundings config
            system.output_room (suc (packets_left (started_ring system capture)))
            (started_ring system capture)
      some (with_tpacket_v3 round))

-- `RunLiveCapture`; nothing at all is a read outside of a buffer.
unfoldable pub run_live_capture : System → PolicyConfig → Option LiveRun
run_live_capture system config =
    if is_empty config.capture.interface
    then some interface_required
    else elim config.capture.backend [
      | recvmsg ↦ run_recvmsg system config
      | tpacket_v3 ↦ run_tpacket_v3 system config
    ]

-- The branches of `main`.
pub data MainRun : Type 0 where
  usage_asked usage_error : MainRun
  config_error : LoadError → MainRun
  offline_run : OfflinePacketFeedResult → MainRun
  live_run : LiveRun → MainRun

-- What the arguments behind the program's name ask for.
pub data Mode : Type 0 where
  help_mode config_only offline_mode no_mode : Mode

unfoldable pub mode_of : List Bytes → Mode
mode_of (a ∷ []) = if text_eq a (codes "--help") then help_mode else no_mode
mode_of (a ∷ path ∷ []) = if text_eq a (codes "--config") then config_only else no_mode
mode_of (a ∷ path ∷ b ∷ input ∷ []) =
    if text_eq a (codes "--config") && text_eq b (codes "--offline-input")
    then offline_mode
    else no_mode
mode_of _ = no_mode

-- `main` behind the reading of the configuration.
unfoldable pub run_config : System → Bool → ConfigLoadResult → Option MainRun
run_config system offline result = elim result.error [
  | some e ↦ some (config_error e)
  | none ↦
      if offline
      then (do
        feed_result ← Offline.run system.input_file system.output_room result.config
        some (offline_run feed_result))
      else (do run ← run_live_capture system result.config; some (live_run run))
]

unfoldable pub main : System → List Bytes → Option MainRun
main system arguments = elim (mode_of arguments) [
  | help_mode ↦ some usage_asked
  | no_mode ↦ some usage_error
  | config_only ↦ run_config system false (load_from_file system.config_file)
  | offline_mode ↦ run_config system true (load_from_file system.config_file)
]

-- What the process returns, once it does.
abbrev pub round_code : {S : Type 0} → Round S → Option ℕ
round_code (again live) = none
round_code (waiting live) = none
round_code (ended result) = elim result.exit [ finished reason ↦ some 0 | _ ↦ some 1 ]

abbrev pub live_code : LiveRun → Option ℕ
live_code interface_required = some 1
live_code not_opened = some 1
live_code (with_recvmsg round) = round_code round
live_code (with_tpacket_v3 round) = round_code round

unfoldable pub exit_code : MainRun → Option ℕ
exit_code usage_asked = some 0
exit_code usage_error = some 1
exit_code (config_error e) = some 1
exit_code (offline_run result) = elim result.error [ none ↦ some 0 | some e ↦ some 1 ]
exit_code (live_run run) = live_code run
