-- ===== src/Capture/Sockets.antt =====
-- src/capture/AfPacketSocketOptions.hpp, and what a capture holds of the kernel.
use pcap_constrictor_afpacke.Base.{ℕ, ◌+◌, ◌-◌, Bool, true, false, ◌||◌, not, ◌==◌, if◌then◌else◌}

-- How many the process holds: sockets, memberships of the promiscuous mode, rings and mappings.
pub record Held : Type 0 where
  pub sockets : ℕ
  pub memberships : ℕ
  pub rings : ℕ
  pub mappings : ℕ

abbrev pub take_socket : Held → Held
take_socket held = record held { sockets = held.sockets + 1 }

-- `::close`: the kernel takes the socket, and the ring and the membership that it still has.
unfoldable pub close_socket : Bool → Bool → Held → Held
close_socket has_ring has_membership held = record held {
  sockets = held.sockets - 1;
  rings = held.rings - (if has_ring then 1 else 0);
  memberships = held.memberships - (if has_membership then 1 else 0);
}

-- `EnablePromiscuousMembership`, with what `setsockopt` answers.
unfoldable pub enable_promiscuous_membership : Bool → Held → Bool × Held
enable_promiscuous_membership answer held =
    if answer then (true, record held { memberships = held.memberships + 1 }) else (false, held)

-- `DisablePromiscuousMembership`, with what `setsockopt` answers: does the socket still have its
-- membership?
unfoldable pub disable_promiscuous_membership : Bool → Bool → ℕ → Held → Bool × Held
disable_promiscuous_membership answer is_open ifindex held =
    if not is_open || ifindex == 0
    then (true, held)
    else if answer
    then (false, record held { memberships = held.memberships - 1 })
    else (true, held)
