-- ===== src/Capture/Ring.antt =====
-- src/capture/AfPacketTpacketV3Capture.cpp: the capture from a ring of blocks that the kernel fills.
-- `Abi` is <linux/if_packet.h>: the sizes of the kernel's structures, and what their bytes hold.
-- A block is its status word, of which only TP_STATUS_USER is read, and its bytes.
mod Types
mod Blocks
mod Waiting
mod Packets
pub mod Opening
pub mod Holding
pub mod Layout
pub mod Views
pub mod Delivery
pub mod Blockwise
pub mod Draining
pub mod Idle
pub mod Filling
pub mod Owned
pub mod Invariant
pub mod Waits
pub mod Turns
pub mod Rounds
pub mod Received
unfoldable pub use Types.*
unfoldable pub use Blocks.*
unfoldable pub use Waiting.*
unfoldable pub use Packets.*
