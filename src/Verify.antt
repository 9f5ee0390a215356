-- ===== src/Verify.antt =====
-- services/local-agent/internal/verify: the checks between a bundle and trust in its key.
mod Tests
pub mod Types
pub mod Policy
pub mod Signature
pub mod Verifier
pub mod Dcap
pub mod Toy
