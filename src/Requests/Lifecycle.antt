-- ===== src/Requests/Lifecycle.antt =====
-- The life of one connection request, whatever calls the store answers
-- (services/control-plane/internal/requests/store.go).
pub mod Effects
pub mod Moves
pub mod Approval
pub mod Deadline
pub mod Pending
