-- ===== src/Decode.antt =====
-- src/decode/PacketDecode.hpp and PacketDecode.cpp: Ethernet, VLAN tags, IPv4 or IPv6, TCP or UDP.
-- A decoding step takes the result so far and returns it with its fields set; `none` is a read
-- outside of the packet. A `uint8_t` or `uint16_t` keeps its wrap-around. Shifts and masks are
-- written as quotients and remainders by powers of two.
mod Types
mod Transport
mod Network
pub mod Shape
pub mod Safety
unfoldable pub use Types.*
unfoldable pub use Transport.*
unfoldable pub use Network.*
