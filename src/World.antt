-- ===== src/World.antt =====
-- What every component works on: the errors of src/consts/status, the tables of
-- src/internal/database/migrations, the services that the program calls, and the state monad.
mod Errors
mod Tables
mod External
mod Monad
pub mod Frame
unfoldable pub use Errors.*
unfoldable pub use Tables.*
unfoldable pub use External.*
unfoldable pub use Monad.*
