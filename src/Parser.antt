-- ===== src/Parser.antt =====
-- The parser of rollup inputs (src/parser_impl.cpp, src/parser.cpp, include/libcma/parser.h).
pub mod Types
pub mod Cmt
pub mod Abi
pub mod Deposits
pub mod Packed
pub mod Withdrawals
pub mod Transfers
pub mod Advance
pub mod Out
pub mod Vouchers
pub mod Chain
pub mod Selectors
pub mod Bounds
pub mod Codes
pub mod Batch
pub mod Outcome
pub mod Tests
pub use Types.*
