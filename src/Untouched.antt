-- ===== src/Untouched.antt =====
-- What most operations of the stores and on containers leave alone.
mod Frame
mod Stores
mod Containers
mod Failures
pub use Frame.*
pub use Stores.*
pub use Containers.*
pub use Failures.*
