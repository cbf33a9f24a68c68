-- ===== src/Capture/Recvmsg/Received.antt =====
-- What `ReceiveNext` of src/capture/AfPacketCapture.cpp gives, for any answers of the kernel.
use pcap_constrictor_afpacke.Packet.{CapturedPacket}
use pcap_constrictor_afpacke.Base.{
  ℕ, suc, ◌+◌, ◌%◌, ◌≤◌, ◌≡◌, refl, arith, Bool, true, false, Option, List, [], ◌∷◌, length,
  length-take, take-length, take, if-elim, if◌then◌else◌, ◌<◌, ap, ◌∙◌, sym,
}
use pcap_constrictor_afpacke.Bytes.{Bytes, u32_mod}
use pcap_constrictor_afpacke.Capture.{
  packet, timeout, interrupted, error, LinkAddress, stop_requested, IsCaptured, IsReceived,
  IsCapture, fault, blocked, returns,
}
use pcap_constrictor_afpacke.Capture.Recvmsg.{
  AfPacketCapture, ReceiveAnswer, frame, signal_came, no_data, no_buffers, failed, Socket,
  received_packet, receive_loop, receive_next, recvmsg_capture, Received, count_error,
}

received_packet-IsCaptured :
    (capture : AfPacketCapture) (data_bytes : Bytes) (address : LinkAddress) (now : ℕ)
    → IsCaptured (received_packet capture data_bytes address now)
unfolding received_packet
received_packet-IsCaptured capture data_bytes address now =
    let buffer = take capture.buffer_size data_bytes in
    record {
      captured_is = omega (arith, length-take (length buffer % u32_mod) buffer);
      original_ge = omega arith;
      fits = omega arith;
    }

abbrev pub AnySocket : Socket → Type 0
AnySocket socket = Unit {0}

-- The answers that are still to come.
abbrev pub answers_left : Socket → ℕ
answers_left socket = length socket.answers

abbrev IsTaken : Option ℕ → ℕ → Received → Type 0
IsTaken signal bound r = IsReceived AnySocket answers_left signal bound r

IsTaken-mono :
    (signal : Option ℕ) (n m : ℕ) (r : Received) → n ≤ m → IsTaken signal n r → IsTaken signal m r
IsTaken-mono signal n m fault le h = h
IsTaken-mono signal n m blocked le h = tt
IsTaken-mono signal n m (returns (packet p, t, s)) le h = (tt, omega (arith, h.1), h.2)
IsTaken-mono signal n m (returns (timeout, t, s)) le h = (tt, omega (arith, h.1))
IsTaken-mono signal n m (returns (interrupted, t, s)) le h = (tt, omega (arith, h.1), h.2)
IsTaken-mono signal n m (returns (error, t, s)) le h = (tt, omega (arith, h.1))

stopped_next :
    (signal : Option ℕ) (test : ℕ)
    → stop_requested signal test ≡ true
    → stop_requested signal (test + 1) ≡ true
stopped_next signal test h = ground (arith, h)

receive_loop-IsTaken :
    (signal : Option ℕ) (test : ℕ) (socket : Socket) (capture : AfPacketCapture)
    (answers : List ReceiveAnswer)
    → IsTaken signal (length answers) (receive_loop signal test socket capture answers)
unfolding receive_loop
receive_loop-IsTaken signal test socket capture [] = tt
receive_loop-IsTaken signal test socket capture (frame data_bytes address now ∷ answers) =
    (tt, omega arith, received_packet-IsCaptured capture data_bytes address now)
receive_loop-IsTaken signal test socket capture (signal_came ∷ answers) =
    if-elim (IsTaken signal (suc (length answers))) (stop_requested signal test) _ _
      (λ h. (tt, omega arith, stopped_next signal test h))
      (λ h.
        IsTaken-mono signal (length answers) (suc (length answers)) _ (omega arith)
          (receive_loop-IsTaken signal (test + 1) socket capture answers))
receive_loop-IsTaken signal test socket capture (no_data ∷ answers) =
    by_test (stop_requested signal test) refl
  where
    by_test :
        (b : Bool)
        → stop_requested signal test ≡ b
        → IsTaken signal (suc (length answers)) (
            returns (
              if b then interrupted else timeout,
              test + 1,
              record socket { capture = capture; answers = answers },
            ))
    by_test true h = (tt, omega arith, stopped_next signal test h)
    by_test false h = (tt, omega arith)
receive_loop-IsTaken signal test socket capture (no_buffers ∷ answers) =
    if-elim (IsTaken signal (suc (length answers))) (stop_requested signal test) _ _
      (λ h. (tt, omega arith, stopped_next signal test h))
      (λ h.
        IsTaken-mono signal (length answers) (suc (length answers)) _ (omega arith)
          (receive_loop-IsTaken signal (test + 1) socket (count_error capture) answers))
receive_loop-IsTaken signal test socket capture (failed ∷ answers) = (tt, omega arith)

pub receive_next-IsTaken :
    (signal : Option ℕ) (test : ℕ) (socket : Socket)
    → IsTaken signal (answers_left socket) (receive_next signal test socket)
unfolding receive_next
receive_next-IsTaken signal test socket =
    if-elim (IsTaken signal (answers_left socket)) socket.capture.is_open _ _
      (λ h.
        receive_loop-IsTaken signal test socket (record socket.capture { has_error = false })
          socket.answers)
      (λ h. (tt, omega arith))

pub recvmsg_capture-IsCapture : IsCapture AnySocket answers_left recvmsg_capture
recvmsg_capture-IsCapture = record {
  received = λ signal test socket v. receive_next-IsTaken signal test socket;
}

-- The first frame among the answers that ReceiveNext comes to, whole or up to the buffer's size.
abbrev pub IsFrameOf : ℕ → List ReceiveAnswer → CapturedPacket → Type 0
IsFrameOf size [] p = ⊥
IsFrameOf size (frame data_bytes address now ∷ answers) p =
    (p.packet.data_span ≡ take size data_bytes)
    × (p.packet.captured_len ≡ length p.packet.data_span)
    × (p.packet.original_len ≡ length p.packet.data_span)
    × (p.timestamp ≡ now)
IsFrameOf size (signal_came ∷ answers) p = IsFrameOf size answers p
IsFrameOf size (no_data ∷ answers) p = ⊥
IsFrameOf size (no_buffers ∷ answers) p = IsFrameOf size answers p
IsFrameOf size (failed ∷ answers) p = ⊥

abbrev pub IsFirstFrame : ℕ → List ReceiveAnswer → Received → Type 0
IsFirstFrame size answers (returns (packet p, test, socket)) = IsFrameOf size answers p
IsFirstFrame size answers _ = Unit {0}

received_packet-IsFrameOf :
    (capture : AfPacketCapture) (data_bytes : Bytes) (address : LinkAddress) (now : ℕ)
    (answers : List ReceiveAnswer)
    → capture.buffer_size < u32_mod
    → IsFrameOf capture.buffer_size
        (frame data_bytes address now ∷ answers)
        (received_packet capture data_bytes address now)
unfolding received_packet
received_packet-IsFrameOf capture data_bytes address now answers small =
    let buffer = take capture.buffer_size data_bytes in
    let fits : length buffer % u32_mod ≡ length buffer =
      omega (arith, length-take capture.buffer_size data_bytes, small) in
    let whole : take (length buffer % u32_mod) buffer ≡ buffer =
      ap (λ n. take n buffer) fits ∙ take-length buffer in
    (whole, fits ∙ ap length (sym whole), fits ∙ ap length (sym whole), refl)

IsFirstFrame-skip :
    (size : ℕ) (answers more : List ReceiveAnswer) (r : Received)
    → ((p : CapturedPacket) → IsFrameOf size answers p → IsFrameOf size more p)
    → IsFirstFrame size answers r
    → IsFirstFrame size more r
IsFirstFrame-skip size answers more fault k h = tt
IsFirstFrame-skip size answers more blocked k h = tt
IsFirstFrame-skip size answers more (returns (packet p, t, s)) k h = k p h
IsFirstFrame-skip size answers more (returns (timeout, t, s)) k h = tt
IsFirstFrame-skip size answers more (returns (interrupted, t, s)) k h = tt
IsFirstFrame-skip size answers more (returns (error, t, s)) k h = tt

receive_loop-IsFirstFrame :
    (signal : Option ℕ) (test : ℕ) (socket : Socket) (capture : AfPacketCapture)
    (answers : List ReceiveAnswer)
    → capture.buffer_size < u32_mod
    → IsFirstFrame capture.buffer_size answers (receive_loop signal test socket capture answers)
unfolding receive_loop
receive_loop-IsFirstFrame signal test socket capture [] small = tt
receive_loop-IsFirstFrame signal test socket capture (frame data_bytes address now ∷ answers)
      small =
    received_packet-IsFrameOf capture data_bytes address now answers small
receive_loop-IsFirstFrame signal test socket capture (signal_came ∷ answers) small =
    if-elim (IsFirstFrame capture.buffer_size (signal_came ∷ answers)) (stop_requested signal test)
      _ _ (λ h. tt)
      (λ h.
        IsFirstFrame-skip capture.buffer_size answers (signal_came ∷ answers) _ (λ p q. q)
          (receive_loop-IsFirstFrame signal (test + 1) socket capture answers small))
receive_loop-IsFirstFrame signal test socket capture (no_data ∷ answers) small =
    by_test (stop_requested signal test)
  where
    by_test :
        (b : Bool)
        → IsFirstFrame capture.buffer_size (no_data ∷ answers) (
            returns (
              if b then interrupted else timeout,
              test + 1,
              record socket { capture = capture; answers = answers },
            ))
    by_test true = tt
    by_test false = tt
receive_loop-IsFirstFrame signal test socket capture (no_buffers ∷ answers) small =
    if-elim (IsFirstFrame capture.buffer_size (no_buffers ∷ answers)) (stop_requested signal test) _
      _ (λ h. tt)
      (λ h.
        IsFirstFrame-skip capture.buffer_size answers (no_buffers ∷ answers) _ (λ p q. q)
          (receive_loop-IsFirstFrame signal (test + 1) socket (count_error capture) answers small))
receive_loop-IsFirstFrame signal test socket capture (failed ∷ answers) small = tt

-- For every object with a buffer of less than 2 ^ 32 bytes, list of answers and signal,
-- ReceiveNext returns or waits for the kernel. A packet is that of the first frame among the
-- answers, with only interrupted calls and full buffers before it: its bytes are the frame's up
-- to the size of the buffer, its captured and its original length both their number, under 2 ^
-- 32, and its time is the frame's. Each packet and each timeout uses up an answer, and it is
-- interrupted only once a signal came.
pub receive_next-IsReceived :
    (signal : Option ℕ) (test : ℕ) (socket : Socket)
    → socket.capture.buffer_size < u32_mod
    → IsReceived AnySocket answers_left signal
        (answers_left socket)
        (receive_next signal test socket)
      × IsFirstFrame socket.capture.buffer_size socket.answers (receive_next signal test socket)
receive_next-IsReceived signal test socket small = (
  receive_next-IsTaken signal test socket,
  unfold receive_next in
      if-elim (IsFirstFrame socket.capture.buffer_size socket.answers) socket.capture.is_open _ _
        (λ h.
          receive_loop-IsFirstFrame signal test socket (record socket.capture { has_error = false })
            socket.answers small)
        (λ h. tt),
)
