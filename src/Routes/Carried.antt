-- ===== src/Routes/Carried.antt =====
-- What requests and deliveries carry on: the limits of a user, and the users that sessions name.
mod Base
mod Devices
mod Roles
mod Accounts
mod Work
mod Deliveries
mod Answers
mod Handled
mod Served
pub use Base.{WithinLimits, Known, Carries, kept}
pub use Deliveries.{consume-Carries}
pub use Answers.{Genuine, Good}
pub use Served.{serve-Good}
