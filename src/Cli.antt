-- ===== src/Cli.antt =====
-- internal/cli: the read-only command line.
pub mod Table
pub mod Model
pub mod Records
pub mod Controllers
pub mod Health
pub mod Dns
pub mod Report
pub mod Commands
