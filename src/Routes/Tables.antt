-- ===== src/Routes/Tables.antt =====
-- Which operations leave the tables of users, devices, roles and instances alone.
mod Reports
mod Tunnels
mod Handlers
mod Pages
pub use Reports.*
pub use Tunnels.*
pub use Handlers.*
pub use Pages.*
