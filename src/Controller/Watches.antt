-- ===== src/Controller/Watches.antt =====
-- internal/controller/setup.go: which sources an event of another object enqueues.
pub mod Index
pub mod Mapper
pub mod Reads
pub mod Backends
pub mod Ingresses
pub mod Providers
pub mod Routes
pub mod Endpoints
