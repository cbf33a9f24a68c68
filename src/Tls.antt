-- ===== src/Tls.antt =====
-- src/policy/TlsConstrictor.hpp and TlsConstrictor.cpp: the state kept for each direction of a
-- TCP connection, and `Evaluate`. The source holds a reference to the entry of the packet's
-- direction while it works; here that entry is `state`, apart from the map, and it is stored under
-- its key at each place where the source returns with the entry still in the map.
mod Types
mod Loop
mod Evaluate
pub mod Invariant
pub mod Outcome
pub mod Records
pub mod Segment
pub mod LastRound
pub mod WholeRecords
pub mod FinalOnly
unfoldable pub use Types.*
unfoldable pub use Loop.*
unfoldable pub use Evaluate.*
