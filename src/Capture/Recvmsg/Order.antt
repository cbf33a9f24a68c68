-- ===== src/Capture/Recvmsg/Order.antt =====
-- Which packets ReceiveNext of src/capture/AfPacketCapture.cpp gives, and in which order.
use pcap_constrictor_afpacke.Base.{
  ℕ, ◌+◌, ◌<◌, ◌≤◌, ◌≡◌, refl, sym, ap, ◌∙◌, Bool, true, false, arith, none, List, [], ◌∷◌, length,
  if-elim,
}
use pcap_constrictor_afpacke.Capture.{packet, timeout, interrupted, error, fault, blocked, returns}
use pcap_constrictor_afpacke.Capture.Recvmsg.{
  AfPacketCapture, ReceiveAnswer, frame, signal_came, no_data, no_buffers, failed, Socket, Received,
  received_packet, receive_loop, receive_next, count_error,
}
use pcap_constrictor_afpacke.Packet.{CapturedPacket}

-- The packets of the frames among the answers.
abbrev pub packets_of : AfPacketCapture → List ReceiveAnswer → List CapturedPacket
packets_of capture [] = []
packets_of capture (frame data_bytes address now ∷ answers) =
    received_packet capture data_bytes address now ∷ packets_of capture answers
packets_of capture (signal_came ∷ answers) = packets_of capture answers
packets_of capture (no_data ∷ answers) = packets_of capture answers
packets_of capture (no_buffers ∷ answers) = packets_of capture answers
packets_of capture (failed ∷ answers) = packets_of capture answers

abbrev pub NoFailure : List ReceiveAnswer → Type 0
NoFailure [] = Unit {0}
NoFailure (frame data_bytes address now ∷ answers) = NoFailure answers
NoFailure (signal_came ∷ answers) = NoFailure answers
NoFailure (no_data ∷ answers) = NoFailure answers
NoFailure (no_buffers ∷ answers) = NoFailure answers
NoFailure (failed ∷ answers) = ⊥

packets_of-errors :
    (capture : AfPacketCapture) (has_error : Bool) (count : ℕ) (answers : List ReceiveAnswer)
    → packets_of
        (record capture { has_error = has_error; non_fatal_receive_errors = count })
        answers
      ≡ packets_of capture answers
unfolding received_packet
packets_of-errors capture b n [] = refl
packets_of-errors capture b n (frame data_bytes address now ∷ answers) =
    ap (◌∷◌ (received_packet capture data_bytes address now))
      (packets_of-errors capture b n answers)
packets_of-errors capture b n (signal_came ∷ answers) = packets_of-errors capture b n answers
packets_of-errors capture b n (no_data ∷ answers) = packets_of-errors capture b n answers
packets_of-errors capture b n (no_buffers ∷ answers) = packets_of-errors capture b n answers
packets_of-errors capture b n (failed ∷ answers) = packets_of-errors capture b n answers

-- One call takes the answers up to the next packet or timeout.
pub record IsStep (capture : AfPacketCapture) (answers : List ReceiveAnswer)
    (given : List CapturedPacket) (after : Socket) : Type 0 where
  pub opened : after.capture.is_open ≡ true
  pub no_failure : NoFailure after.answers
  pub fewer : length after.answers < length answers
  pub rest : packets_of capture answers ≡ given

abbrev pub IsCall : AfPacketCapture → List ReceiveAnswer → Received → Type 0
IsCall capture answers fault = ⊥
IsCall capture answers blocked = packets_of capture answers ≡ []
IsCall capture answers (returns (packet p, test, after)) =
    IsStep capture answers (p ∷ packets_of after.capture after.answers) after
IsCall capture answers (returns (timeout, test, after)) =
    IsStep capture answers (packets_of after.capture after.answers) after
IsCall capture answers (returns (interrupted, test, after)) = ⊥
IsCall capture answers (returns (error, test, after)) = ⊥

-- The answers before do not count, and neither do the errors.
IsCall-later :
    (capture before : AfPacketCapture) (answers more : List ReceiveAnswer) (r : Received)
    → length answers ≤ length more
    → packets_of before more ≡ packets_of capture answers
    → IsCall capture answers r
    → IsCall before more r
IsCall-later capture before answers more fault lt same h = h
IsCall-later capture before answers more blocked lt same h = same ∙ h
IsCall-later capture before answers more (returns (packet p, t, s)) lt same h = record {
  opened = h.opened;
  no_failure = h.no_failure;
  fewer = omega (arith, lt, h.fewer);
  rest = same ∙ h.rest;
}
IsCall-later capture before answers more (returns (timeout, t, s)) lt same h = record {
  opened = h.opened;
  no_failure = h.no_failure;
  fewer = omega (arith, lt, h.fewer);
  rest = same ∙ h.rest;
}
IsCall-later capture before answers more (returns (interrupted, t, s)) lt same h = h
IsCall-later capture before answers more (returns (error, t, s)) lt same h = h

receive_loop-IsCall :
    (test : ℕ) (socket : Socket) (capture : AfPacketCapture) (answers : List ReceiveAnswer)
    → capture.is_open ≡ true
    → NoFailure answers
    → IsCall capture answers (receive_loop none test socket capture answers)
unfolding receive_loop
receive_loop-IsCall test socket capture [] o n = refl
receive_loop-IsCall test socket capture (frame data_bytes address now ∷ answers) o n = record {
  opened = o;
  no_failure = n;
  fewer = omega arith;
  rest = refl;
}
receive_loop-IsCall test socket capture (signal_came ∷ answers) o n =
    IsCall-later capture capture answers (signal_came ∷ answers) _ (omega arith) refl
      (receive_loop-IsCall (test + 1) socket capture answers o n)
receive_loop-IsCall test socket capture (no_data ∷ answers) o n = record {
  opened = o;
  no_failure = n;
  fewer = omega arith;
  rest = refl;
}
receive_loop-IsCall test socket capture (no_buffers ∷ answers) o n =
    IsCall-later (count_error capture) capture answers (no_buffers ∷ answers) _ (omega arith)
      (sym (packets_of-errors capture capture.has_error _ answers))
      (receive_loop-IsCall (test + 1) socket (count_error capture) answers o n)
receive_loop-IsCall test socket capture (failed ∷ answers) o n = absurd n

pub receive_next-IsCall :
    (test : ℕ) (socket : Socket)
    → socket.capture.is_open ≡ true
    → NoFailure socket.answers
    → IsCall socket.capture socket.answers (receive_next none test socket)
unfolding receive_next
receive_next-IsCall test socket o n =
    if-elim (IsCall socket.capture socket.answers) socket.capture.is_open _ _
      (λ h.
        IsCall-later (record socket.capture { has_error = false }) socket.capture socket.answers
          socket.answers _ (omega arith)
          (sym (packets_of-errors socket.capture false _ socket.answers))
          (receive_loop-IsCall test socket (record socket.capture { has_error = false })
            socket.answers o n))
      (λ h. absurd (ground (arith, h, o)))
