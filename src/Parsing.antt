-- ===== src/Parsing.antt =====
-- What the program uses of Go's strconv and time to read numbers and durations.
mod Atoi
pub mod Digits
pub mod Duration
pub mod Ends
pub mod Bounds
unfoldable pub use Atoi.*
