-- ===== src/Requests.antt =====
-- services/control-plane/internal/requests: the request store.
pub mod Model
pub mod Store
pub mod Install
pub mod Calls
pub mod Lifecycle
pub mod Tokens
pub mod FileStore
mod Tests
