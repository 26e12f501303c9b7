-- ===== src/Dnsendpoint.antt =====
-- internal/dnsendpoint: the writer that keeps DNSEndpoint objects.
pub mod Lifecycle
pub mod Endpoints
pub mod Naming
pub mod Object
pub mod Build
pub mod Writer
pub mod Advance
