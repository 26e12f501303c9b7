-- ===== src/Tests.antt =====
-- Concrete instances: a platform that satisfies its laws, and runs of the program at it.
pub mod Concrete
mod Objects
mod Sources
mod Controllers
mod Watches
mod Cli
