-- ===== src/Ledger.antt =====
-- The ledger: the types of include/libcma/ledger.h and src/ledger_impl.h.
pub mod Types
pub mod Code
pub mod Basic
pub mod Memory
pub mod Api
pub use Types.*
