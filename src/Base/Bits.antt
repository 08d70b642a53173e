-- ===== src/Base/Bits.antt =====
-- `bit_and` and `bit_or` at variables: the libraries have no laws for them.
mod Digits
mod Masks
mod Bytes
mod Pages
pub use Digits.*
pub use Masks.*
pub use Pages.*
unfoldable pub use Bytes.*
