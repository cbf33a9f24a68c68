-- ===== src/Reader.antt =====
-- src/offline/PcapReader.hpp and PcapReader.cpp. An error is a constructor with the numbers that
-- its message holds; `none` for the stream is one that is closed.
mod Types
mod Opening
mod Reading
pub mod Progress
pub mod RoundTrip
pub mod Files
unfoldable pub use Types.*
unfoldable pub use Opening.*
unfoldable pub use Reading.*
