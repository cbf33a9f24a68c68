-- ===== src/Capture/Recvmsg/Opening.antt =====
-- `Open` and `Close` of src/capture/AfPacketCapture.cpp, and what they hold of the kernel.
use pcap_constrictor_afpacke.Base.{
  ℕ, ◌+◌, ◌≡◌, ◌≢◌, Bool, true, false, not, ◌==◌, refl, if-elim, if◌then◌else◌, arith,
}
use pcap_constrictor_afpacke.Bytes.{Bytes}
use pcap_constrictor_afpacke.Loader.{is_empty}
use pcap_constrictor_afpacke.Capture.Sockets.{
  Held, take_socket, close_socket, enable_promiscuous_membership, disable_promiscuous_membership,
}
use pcap_constrictor_afpacke.Capture.Recvmsg.{AfPacketCapture}

-- What the kernel answers to the calls of `Open`: an interface's index, or 0, and if each call
-- succeeds.
pub record OpenAnswers : Type 0 where
  pub ifindex : ℕ
  pub socket : Bool
  pub receive_timeout : Bool
  pub bind : Bool
  pub membership : Bool
  pub drop_membership : Bool

-- `Close`, with the answer to the call that drops the membership.
unfoldable pub close : AfPacketCapture → Bool → Held → AfPacketCapture × Held
close capture answer held = (
  record capture {
    is_open = false;
    promiscuous_enabled = false;
    interface_index = 0;
    non_fatal_receive_errors = 0;
  },
  let (has_membership, held') =
        if capture.promiscuous_enabled
        then disable_promiscuous_membership answer capture.is_open capture.interface_index held
        else (false, held) in
      if capture.is_open then close_socket false has_membership held' else held,
)

abbrev pub failed_open : AfPacketCapture → Held → Bool × AfPacketCapture × Held
failed_open capture held = (false, record capture { has_error = true }, held)

-- Behind the calls that make the socket.
unfoldable pub open_socket :
    AfPacketCapture → Bool → OpenAnswers → Held → Bool × AfPacketCapture × Held
open_socket capture promiscuous answers held =
    let (enabled, held') =
      if promiscuous then enable_promiscuous_membership answers.membership held else (true, held) in
    if not answers.receive_timeout
    then failed_open capture (close_socket false false held)
    else if not answers.bind
    then failed_open capture (close_socket false false held)
    else if not enabled
    then failed_open capture (close_socket false false held')
    else (
      true,
      record capture {
        is_open = true;
        promiscuous_enabled = promiscuous;
        interface_index = answers.ifindex;
      },
      held',
    )

-- `Open`
unfoldable pub open_capture :
    AfPacketCapture → Bytes → Bool → OpenAnswers → Held → Bool × AfPacketCapture × Held
open_capture capture interface_name promiscuous answers held =
    let (closed, held) = close capture answers.drop_membership held in
    let capture = record closed { has_error = false; non_fatal_receive_errors = 0 } in
    if is_empty interface_name
    then failed_open capture held
    else if answers.ifindex == 0
    then failed_open capture held
    else if not answers.socket
    then failed_open capture held
    else open_socket capture promiscuous answers (take_socket held)

-- The object accounts for what it holds on top of what else the process has.
pub record IsHeldBy (others : Held) (capture : AfPacketCapture) (held : Held) : Type 0 where
  pub sockets_are : held.sockets ≡ others.sockets + (if capture.is_open then 1 else 0)
  pub memberships_are :
      held.memberships ≡ others.memberships + (if capture.promiscuous_enabled then 1 else 0)
  pub mode_of_open : capture.promiscuous_enabled ≡ true → capture.is_open ≡ true
  pub index_of_open : capture.is_open ≡ true → capture.interface_index ≢ 0

close-IsHeldBy :
    (others held : Held) (capture : AfPacketCapture) (answer : Bool)
    → IsHeldBy others capture held
    → IsHeldBy others (close capture answer held).0 (close capture answer held).1
unfolding close close_socket disable_promiscuous_membership
close-IsHeldBy others held capture answer h =
    let sockets = h.sockets_are in
    let memberships = h.memberships_are in
    let mode = h.mode_of_open in
    let index = h.index_of_open in
    record {
      sockets_are = ground arith;
      memberships_are = ground arith;
      mode_of_open = ground arith;
      index_of_open = ground arith;
    }

close-not-is_open :
    (capture : AfPacketCapture) (answer : Bool) (held : Held)
    → ((close capture answer held).0.is_open ≡ false)
      × ((close capture answer held).0.promiscuous_enabled ≡ false)
unfolding close
close-not-is_open capture answer held = (refl, refl)

open_socket-IsHeldBy :
    (others held : Held) (capture : AfPacketCapture) (promiscuous : Bool) (answers : OpenAnswers)
    → held.sockets ≡ others.sockets + 1
    → held.memberships ≡ others.memberships
    → capture.is_open ≡ false
    → capture.promiscuous_enabled ≡ false
    → answers.ifindex ≢ 0
    → let r = open_socket capture promiscuous answers held in
      IsHeldBy others r.1 r.2 × (r.1.is_open ≡ r.0)
unfolding open_socket close_socket enable_promiscuous_membership
open_socket-IsHeldBy others held capture promiscuous answers s m o p i = (
  record {
    sockets_are = ground arith;
    memberships_are = ground arith;
    mode_of_open = ground arith;
    index_of_open = ground arith;
  },
  ground arith,
)

-- From an object that holds of the kernel what its fields say, on top of what others hold: Open,
-- whatever the system answers to each call, that to drop the membership included, leaves an
-- object that does so again, with a socket exactly if it answers true; a failed Open has given
-- the socket back. That close takes the socket with the membership that it still has is what the
-- kernel documents.
pub open_capture-IsHeldBy :
    (others held : Held) (capture : AfPacketCapture) (name : Bytes) (promiscuous : Bool)
    (answers : OpenAnswers)
    → IsHeldBy others capture held
    → let r = open_capture capture name promiscuous answers held in
      IsHeldBy others r.1 r.2 × (r.1.is_open ≡ r.0)
unfolding open_capture
open_capture-IsHeldBy others held capture name promiscuous answers h =
    let c = (close capture answers.drop_membership held).0 in
    let capture' : AfPacketCapture = record c { has_error = false; non_fatal_receive_errors = 0 } in
    let held' = (close capture answers.drop_membership held).1 in
    let closed = close-IsHeldBy others held capture answers.drop_membership h in
    let is_closed = close-not-is_open capture answers.drop_membership held in
    let Good : Bool × AfPacketCapture × Held → Type 0 =
      λ r. IsHeldBy others r.1 r.2 × (r.1.is_open ≡ r.0) in
    let failed : Good (failed_open capture' held') = (
      record {
        sockets_are = closed.sockets_are;
        memberships_are = closed.memberships_are;
        mode_of_open = closed.mode_of_open;
        index_of_open = closed.index_of_open;
      },
      is_closed.0,
    ) in
    if-elim Good (is_empty name) _ _ (λ e. failed)
      (λ e.
        if-elim Good (answers.ifindex == 0) _ _ (λ e. failed)
          (λ n.
            if-elim Good (not answers.socket) _ _ (λ e. failed)
              (λ s.
                open_socket-IsHeldBy others (take_socket held') capture' promiscuous answers
                  (ground (arith, closed.sockets_are, is_closed.0))
                  (ground (arith, closed.memberships_are, is_closed.1)) is_closed.0 is_closed.1
                  (ground arith))))
