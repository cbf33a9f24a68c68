-- ===== src/Capture/Ring/Rounds.antt =====
-- A whole round of ReceiveNext's loop, on an active block and without one.
use native.Mathlib.Nat.{div-le_self}
use pcap_constrictor_afpacke.Base.{
  ℕ, ◌+◌, ◌≤◌, ◌<◌, ◌≡◌, refl, arith, Bool, true, false, not, ◌&&◌, ltb, leb, ◌==◌, inr,
  if◌then◌else◌, Option, none, some, length, if-elim, ◌∙◌,
}
use pcap_constrictor_afpacke.Bytes.{subspan}
use pcap_constrictor_afpacke.Capture.{
  packet, timeout, interrupted, error, stop_requested, fault, blocked, returns, access, ◌>>=◌,
  Returns, Returns-bind, IsCaptured,
}
use pcap_constrictor_afpacke.Capture.Ring.{
  Abi, BlockDesc, PacketHeader, Ring, has_block_base, current_block, count_discard,
  discard_current_block, is_bad_block, with_result, activate_owned, activate_current_block,
  wait_for_ready_block, Waited, onward, gives, is_bad_packet, advance, go_on, give_packet,
  active_turn, waited_turn, turn, Block,
}
use pcap_constrictor_afpacke.Capture.Ring.Owned.{IsOwned, users-owned, user_of_owned}
use pcap_constrictor_afpacke.Capture.Ring.Invariant.{
  IsRing, rounds_left, IsReleased, IsFound, current_block-IsFound, release_current_block-IsReleased,
  discard_current_block-IsReleased, with_errors, with_errors-IsRing,
}
use pcap_constrictor_afpacke.Capture.Ring.Turns.{
  IsPart, IsTurn, IsNotMore, read_packet-IsCaptured, advance-IsMoved, moved-IsTurn, released-onward,
  subspan-Returns,
}
use pcap_constrictor_afpacke.Capture.Ring.Waits.{weight, IsWaited, wait_for_ready_block-IsWaited}

-- What an activation leaves of an idle ring whose current block is the program's.
pub record IsActivated (ring : Ring) (after : Bool × Ring) : Type 0 where
  pub valid : IsRing after.1
  pub same_size : after.1.capture.block_size ≡ ring.capture.block_size
  pub fewer_rounds : rounds_left after.1 < rounds_left ring
  pub not_more : IsNotMore ring after.1

module _ (abi : Abi) (signal : Option ℕ) (test : ℕ) (ring : Ring) (v : IsRing ring) where
  module _ (active : ring.capture.current_block_active ≡ true) where
    discard-IsTurn : Returns (IsTurn signal ring) (go_on test (discard_current_block ring))
    discard-IsTurn =
        Returns-bind (IsReleased (count_discard ring)) (IsTurn signal ring) _ _
          (discard_current_block-IsReleased ring v (v.active_ok active).0)
          (λ after r. released-onward abi signal test ring v active after (record {
            valid = r.valid;
            inactive = r.inactive;
            same_size = r.same_size;
            same_events = r.same_events;
            one_less = r.one_less;
          }))

    give_packet-IsTurn :
        (b : Block) (header : PacketHeader)
        → IsFound ring b
        → ring.capture.current_block_packet_index < ring.capture.current_block_packet_count
        → Returns (IsTurn signal ring) (give_packet abi test ring b.contents header)
    unfolding give_packet
    give_packet-IsTurn b header found lt =
        if-elim (Returns (IsTurn signal ring)) (is_bad_packet ring.capture header) _ _
          (λ h. discard-IsTurn)
          (λ h.
            Returns-bind (λ p. IsCaptured p × IsPart b.contents p) (IsTurn signal ring) _ _
              (read_packet-IsCaptured abi ring.capture header b.contents found.1 v.size_lt h)
              (λ p c.
                moved-IsTurn abi signal test ring v active p (advance abi header ring.capture) c.0
                  (b, found.0, c.1)
                  (advance-IsMoved abi header ring.capture lt
                    (omega (arith, v.size_lt, (v.active_ok active).2)))))

    active_turn-IsTurn : Returns (IsTurn signal ring) (active_turn abi test ring)
    unfolding active_turn
    active_turn-IsTurn =
        let offset = ring.capture.current_packet_offset in
        if-elim (Returns (IsTurn signal ring))
          (leb ring.capture.current_block_packet_count ring.capture.current_block_packet_index) _ _
          (λ h.
            Returns-bind (IsReleased ring) (IsTurn signal ring) _ _
              (release_current_block-IsReleased ring v (v.active_ok active).0)
              (released-onward abi signal test ring v active))
          (λ more.
            if-elim (Returns (IsTurn signal ring)) (not (has_block_base ring.capture)) _ _
              (λ h. ((with_errors-IsRing ring true _ v, refl), inr (omega arith, omega arith)))
              (λ h.
                if-elim (Returns (IsTurn signal ring))
                  (ltb ring.capture.block_size (offset + abi.header_size)) _ _ (λ e. discard-IsTurn)
                  (λ fits.
                    Returns-bind (IsFound ring) (IsTurn signal ring) _ _
                      (current_block-IsFound ring v)
                      (λ b f.
                        Returns-bind (λ bytes. length bytes ≡ abi.header_size) (IsTurn signal ring)
                          (access (subspan b.contents offset abi.header_size)) _
                          (subspan-Returns abi b.contents offset abi.header_size
                            (ground (arith, fits, f.1)))
                          (λ bytes n.
                            give_packet-IsTurn b (abi.read_header bytes) f
                              (ground (arith, more)))))))

  module _ (idle : ring.capture.current_block_active ≡ false)
      (owned : IsOwned ring.capture.current_block_index ring.blocks) where
    released-IsActivated :
        (after : Ring) → IsReleased ring after → IsActivated ring (with_result false after)
    released-IsActivated after r = record {
      valid = r.valid;
      same_size = r.same_size;
      fewer_rounds = ground (arith, idle, r.inactive, r.one_less, r.same_events);
      not_more = ground (arith, idle, r.inactive, r.one_less, r.same_events);
    }

    activate_owned-IsActivated :
        (desc : BlockDesc) → Returns (IsActivated ring) (activate_owned abi ring desc)
    unfolding activate_owned is_bad_block
    activate_owned-IsActivated desc =
        if-elim (Returns (IsActivated ring)) (desc.num_pkts == 0) _ _
          (λ h.
            Returns-bind (IsReleased ring) (IsActivated ring) _ _
              (release_current_block-IsReleased ring v owned) released-IsActivated)
          (λ n.
            if-elim (Returns (IsActivated ring)) (is_bad_block abi ring.capture desc) _ _
              (λ h.
                Returns-bind (IsReleased (count_discard ring)) (IsActivated ring) _ _
                  (discard_current_block-IsReleased ring v owned)
                  (λ after r. released-IsActivated after (record {
                    valid = r.valid;
                    inactive = r.inactive;
                    same_size = r.same_size;
                    same_events = r.same_events;
                    one_less = r.one_less;
                  })))
              (λ ok.
                let count_le : desc.num_pkts ≤ ring.capture.block_size =
                  ground (arith, ok, div-le_self ring.capture.block_size abi.header_size) in
                let some_user = users-owned ring.capture.current_block_index ring.blocks owned in
                record {
                  valid = record {
                    socket_ok = v.socket_ok;
                    mapping_ok = v.mapping_ok;
                    count_is = v.count_is;
                    index_lt = v.index_lt;
                    count_lt = v.count_lt;
                    size_lt = v.size_lt;
                    sized = v.sized;
                    fills = v.fills;
                    active_ok = λ e. (owned, omega arith, count_le);
                  };
                  same_size = refl;
                  fewer_rounds = ground (arith, idle);
                  not_more = ground (arith, idle, some_user, count_le);
                }))

module _ (abi : Abi) (signal : Option ℕ) where
  abbrev clear : Ring → Ring
  clear ring = with_errors ring false ring.capture.non_fatal_receive_errors

  activate_current_block-IsActivated :
      (ring : Ring)
      → IsRing ring
      → ring.capture.current_block_active ≡ false
      → IsOwned ring.capture.current_block_index ring.blocks
      → Returns (IsActivated (clear ring)) (activate_current_block abi ring)
  unfolding activate_current_block
  activate_current_block-IsActivated ring v idle owned =
      let v' = with_errors-IsRing ring false ring.capture.non_fatal_receive_errors v in
      if-elim (Returns (IsActivated (clear ring))) (not (has_block_base ring.capture)) _ _
        (λ h. absurd (ground (arith, h, v.mapping_ok, v.index_lt)))
        (λ h.
          Returns-bind (IsFound (clear ring)) (IsActivated (clear ring))
            (current_block (clear ring)) _ (current_block-IsFound (clear ring) v')
            (λ b f.
              if-elim (Returns (IsActivated (clear ring))) (not b.is_user) _ _
                (λ e. absurd (
                  ground (
                    arith,
                    e,
                    user_of_owned ring.capture.current_block_index b ring.blocks f.0 owned,
                  )))
                (λ e.
                  activate_owned-IsActivated abi signal 0 (clear ring) v' idle owned
                    (abi.read_desc b.contents))))

  waited_turn-IsTurn :
      (ring : Ring)
      → IsRing ring
      → ring.capture.current_block_active ≡ false
      → (m : Waited) → IsWaited signal ring.capture.block_size (weight ring) m
      → Returns (IsTurn signal ring) (m >>= λ w. waited_turn abi w.0 w.1 w.2)
  unfolding waited_turn
  waited_turn-IsTurn ring v idle fault w = w
  waited_turn-IsTurn ring v idle blocked w = tt
  waited_turn-IsTurn ring v idle (returns (some (packet p), test, mid)) w = absurd w
  waited_turn-IsTurn ring v idle (returns (some timeout, test, mid)) w =
      ((w.0.valid, w.0.same_size), ground (arith, idle, w.0.inactive, w.1))
  waited_turn-IsTurn ring v idle (returns (some interrupted, test, mid)) w =
      ((w.0.valid, w.0.same_size), ground (arith, idle, w.0.inactive, w.1), w.2)
  waited_turn-IsTurn ring v idle (returns (some error, test, mid)) w =
      ((w.0.valid, w.0.same_size), ground (arith, idle, w.0.inactive, w.1))
  waited_turn-IsTurn ring v idle (returns (none, test, mid)) w =
      Returns-bind (IsActivated (clear mid)) (IsTurn signal ring) (activate_current_block abi mid) _
        (activate_current_block-IsActivated mid w.0.valid w.0.inactive w.2)
        (λ a r. after_activation a r)
    where
      after_activation :
          (a : Bool × Ring)
          → IsActivated (clear mid) a
          → Returns (IsTurn signal ring) (
              if not a.0 && a.1.capture.has_error
              then returns (gives error test a.1)
              else returns (onward test a.1))
      after_activation a r =
          let same = r.same_size ∙ w.0.same_size in
          let not_more : IsNotMore ring a.1 =
            ground (arith, idle, w.0.inactive, w.1, w.0.same_size, r.not_more) in
          let fewer : rounds_left a.1 < rounds_left ring =
            ground (arith, idle, w.0.inactive, w.1, r.fewer_rounds) in
          if-elim (Returns (IsTurn signal ring)) (not a.0 && a.1.capture.has_error) _ _
            (λ h. ((r.valid, same), not_more)) (λ h. ((r.valid, same), fewer, not_more))

  pub turn-IsTurn :
      (test : ℕ) (ring : Ring)
      → IsRing ring
      → Returns (IsTurn signal ring) (turn abi signal test ring)
  unfolding turn
  turn-IsTurn test ring v =
      if-elim (Returns (IsTurn signal ring)) (stop_requested signal test) _ _
        (λ h. ((v, refl), inr (omega arith, omega arith), ground (arith, h)))
        (λ h.
          if-elim (Returns (IsTurn signal ring)) ring.capture.current_block_active _ _
            (λ active. active_turn-IsTurn abi signal (test + 1) ring v active)
            (λ idle. waited_turn-IsTurn ring v idle (wait_for_ready_block signal (test + 1) ring) (
              wait_for_ready_block-IsWaited signal ring.capture.block_size (test + 1) ring
                (record { valid = v; inactive = idle; same_size = refl }))))
