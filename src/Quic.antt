-- ===== src/Quic.antt =====
-- src/policy/QuicConstrictor.hpp and QuicConstrictor.cpp: connection ids, flows and `Evaluate`.
-- The parsing of long headers is in Quic/Parse.antt.
mod Types
mod Parse
mod Flow
pub mod Bounds
pub mod Outcome
pub mod Matched
pub mod Replies
pub mod Varints
unfoldable pub use Types.*
unfoldable pub use Parse.*
unfoldable pub use Flow.*
