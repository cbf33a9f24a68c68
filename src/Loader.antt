-- ===== src/Loader.antt =====
-- src/config/ConfigLoader.hpp and ConfigLoader.cpp.
mod Text
mod Values
mod Assign
mod Lines
pub mod Bounds
pub mod Result
pub mod Blank
pub mod Digits
unfoldable pub use Text.*
unfoldable pub use Values.*
unfoldable pub use Assign.*
unfoldable pub use Lines.*
