-- ===== src/Requests/Tokens.antt =====
-- Install sessions and their one-time tokens, whatever calls the store answers
-- (services/control-plane/internal/requests/store.go).
pub mod Changes
pub mod Invariant
pub mod OneTime
pub mod Approved
