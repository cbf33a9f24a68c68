-- ===== src/Capture/Ring/Holding.antt =====
-- What AfPacketTpacketV3Capture holds of the kernel, whatever the system answers.
use pcap_constrictor_afpacke.Base.{
  ◌+◌, ◌≡◌, ◌≢◌, true, false, not, ◌||◌, ltb, ◌==◌, if◌then◌else◌, arith, refl, if-elim,
}
use pcap_constrictor_afpacke.Config.{CaptureOptions}
use pcap_constrictor_afpacke.Loader.{is_empty}
use pcap_constrictor_afpacke.Capture.Sockets.{
  Held, take_socket, close_socket, enable_promiscuous_membership, disable_promiscuous_membership,
}
use pcap_constrictor_afpacke.Capture.Ring.Types.{Abi, AfPacketTpacketV3Capture}
use pcap_constrictor_afpacke.Capture.Ring.Opening.{
  CloseAnswers, empty_ring, OpenAnswers, validate_ring_configuration, frame_count, close, Opened,
  failed_open, open_mapped, open_socket, open_capture,
}

-- The object accounts for what it holds on top of what else the process has.
pub record IsHeldBy (others : Held) (capture : AfPacketTpacketV3Capture) (held : Held)
    : Type 0 where
  pub sockets_are : held.sockets ≡ others.sockets + (if capture.has_socket then 1 else 0)
  pub rings_are : held.rings ≡ others.rings + (if capture.has_socket then 1 else 0)
  pub mappings_are : held.mappings ≡ others.mappings + (if capture.has_mapping then 1 else 0)
  pub memberships_are :
      held.memberships ≡ others.memberships + (if capture.promiscuous_enabled then 1 else 0)
  pub mode_of_open : capture.promiscuous_enabled ≡ true → capture.has_socket ≡ true
  pub index_of_open : capture.has_socket ≡ true → capture.interface_index ≢ 0

close-IsHeldBy :
    (others held : Held) (capture : AfPacketTpacketV3Capture) (answers : CloseAnswers)
    → IsHeldBy others capture held
    → IsHeldBy others (close capture answers held).0 (close capture answers held).1
unfolding close close_socket empty_ring disable_promiscuous_membership
close-IsHeldBy others held capture answers h =
    let sockets = h.sockets_are in
    let rings = h.rings_are in
    let mappings = h.mappings_are in
    let memberships = h.memberships_are in
    let mode = h.mode_of_open in
    let index = h.index_of_open in
    record {
      sockets_are = ground arith;
      rings_are = ground arith;
      mappings_are = ground arith;
      memberships_are = ground arith;
      mode_of_open = ground arith;
      index_of_open = ground arith;
    }

close-not-has_socket :
    (capture : AfPacketTpacketV3Capture) (answers : CloseAnswers) (held : Held)
    → ((close capture answers held).0.has_socket ≡ false)
      × ((close capture answers held).0.has_mapping ≡ false)
      × ((close capture answers held).0.promiscuous_enabled ≡ false)
unfolding close
close-not-has_socket capture answers held = (refl, refl, refl)

module _ (others : Held) where
  -- The object holds what it says, and is open as the answer says.
  abbrev pub IsOpened : Opened → Type 0
  IsOpened r = IsHeldBy others r.1 r.2 × (r.1.has_socket ≡ r.0) × (r.1.has_mapping ≡ r.0)

  -- A closed object, and what the process holds while it opens.
  record IsClosed (capture : AfPacketTpacketV3Capture) : Type 0 where
    no_socket : capture.has_socket ≡ false
    no_mapping : capture.has_mapping ≡ false
    no_mode : capture.promiscuous_enabled ≡ false

  failed_open-IsOpened :
      (capture : AfPacketTpacketV3Capture) (held : Held)
      → IsClosed capture
      → held.sockets ≡ others.sockets
      → held.rings ≡ others.rings
      → held.mappings ≡ others.mappings
      → held.memberships ≡ others.memberships
      → IsOpened (failed_open capture held)
  failed_open-IsOpened capture held c s r m p =
      let no_socket = c.no_socket in
      let no_mapping = c.no_mapping in
      let no_mode = c.no_mode in
      (
        record {
          sockets_are = ground arith;
          rings_are = ground arith;
          mappings_are = ground arith;
          memberships_are = ground arith;
          mode_of_open = ground arith;
          index_of_open = ground arith;
        },
        no_socket,
        no_mapping,
      )

  open_mapped-IsOpened :
      (capture : AfPacketTpacketV3Capture) (config : CaptureOptions) (answers : OpenAnswers)
      (held : Held)
      → IsClosed capture
      → held.sockets ≡ others.sockets + 1
      → held.rings ≡ others.rings + 1
      → held.mappings ≡ others.mappings + 1
      → held.memberships ≡ others.memberships
      → answers.ifindex ≢ 0
      → IsOpened (open_mapped capture config answers held)
  unfolding open_mapped close_socket empty_ring enable_promiscuous_membership
  open_mapped-IsOpened capture config answers held c s r m p i =
      let no_socket = c.no_socket in
      let no_mapping = c.no_mapping in
      let no_mode = c.no_mode in
      (
        record {
          sockets_are = ground arith;
          rings_are = ground arith;
          mappings_are = ground arith;
          memberships_are = ground arith;
          mode_of_open = ground arith;
          index_of_open = ground arith;
        },
        ground arith,
        ground arith,
      )

  open_socket-IsOpened :
      (capture : AfPacketTpacketV3Capture) (config : CaptureOptions) (answers : OpenAnswers)
      (held : Held)
      → IsClosed capture
      → held.sockets ≡ others.sockets + 1
      → held.rings ≡ others.rings
      → held.mappings ≡ others.mappings
      → held.memberships ≡ others.memberships
      → answers.ifindex ≢ 0
      → IsOpened (open_socket capture config answers held)
  unfolding open_socket close_socket empty_ring
  open_socket-IsOpened capture config answers held c s r m p i =
      let failed : IsOpened (failed_open capture (close_socket false false held)) =
        failed_open-IsOpened capture (close_socket false false held) c (omega arith)
          (omega (arith, r)) m (omega (arith, p)) in
      if-elim IsOpened (not answers.version) _ _ (λ e. failed)
        (λ e.
          if-elim IsOpened (frame_count config == 0 || ltb 4294967295 (frame_count config)) _ _
            (λ e. failed)
            (λ e.
              if-elim IsOpened (not answers.rx_ring) _ _ (λ e. failed)
                (λ e.
                  if-elim IsOpened (not answers.mapping) _ _
                    (λ e.
                      failed_open-IsOpened capture _ c (ground arith) (ground arith) (ground arith)
                        (ground arith))
                    (λ e.
                      open_mapped-IsOpened capture config answers _ c s (omega arith) (omega arith)
                        p i))))

-- From an object that holds of the kernel what its fields say, on top of what others hold: Open,
-- whatever the system answers to each call that it makes, those to empty the ring and to drop
-- the membership included, leaves an object that does so again, with a socket and a mapping
-- exactly if it answers true; a failed Open has given back the socket, the mapping and, if not
-- before then with the socket, the ring. That munmap takes the mapping, and close the socket
-- with what it still has, is what the kernel documents.
pub open_capture-IsOpened :
    (abi : Abi) (others held : Held) (capture : AfPacketTpacketV3Capture) (config : CaptureOptions)
    (answers : OpenAnswers)
    → IsHeldBy others capture held
    → IsOpened others (open_capture abi capture config answers held)
unfolding open_capture
open_capture-IsOpened abi others held capture config answers h =
    let c = (close capture answers.closing held).0 in
    let capture' : AfPacketTpacketV3Capture = record c {
      has_error = false;
      non_fatal_receive_errors = 0;
    } in
    let held' = (close capture answers.closing held).1 in
    let shut = close-IsHeldBy others held capture answers.closing h in
    let (no_socket, no_mapping, no_mode) = close-not-has_socket capture answers.closing held in
    let closed : IsClosed others capture' = record {
      no_socket = no_socket;
      no_mapping = no_mapping;
      no_mode = no_mode;
    } in
    let sockets : held'.sockets ≡ others.sockets = ground (arith, shut.sockets_are) in
    let rings : held'.rings ≡ others.rings = ground (arith, shut.rings_are) in
    let mappings : held'.mappings ≡ others.mappings = ground (arith, shut.mappings_are) in
    let memberships : held'.memberships ≡ others.memberships =
      ground (arith, shut.memberships_are) in
    let failed =
      failed_open-IsOpened others capture' held' closed sockets rings mappings memberships in
    if-elim (IsOpened others) (is_empty config.interface) _ _ (λ e. failed)
      (λ e.
        if-elim (IsOpened others) (not (validate_ring_configuration abi answers.page_size config)) _
          _ (λ e. failed)
          (λ e.
            if-elim (IsOpened others) (answers.ifindex == 0) _ _ (λ e. failed)
              (λ n.
                if-elim (IsOpened others) (not answers.socket) _ _ (λ e. failed)
                  (λ e.
                    open_socket-IsOpened others capture' config answers (take_socket held') closed
                      (omega (arith, sockets)) rings mappings memberships (ground arith)))))
