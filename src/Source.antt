-- ===== src/Source.antt =====
-- internal/source: from annotated Kubernetes sources to the records to publish.
pub mod Types
pub mod Errors
pub mod Names
pub mod Annotations
pub mod Diagnostics
pub mod Projection
pub mod Routes
pub mod Resolver
pub mod Publications
