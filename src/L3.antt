-- ===== src/L3.antt =====
-- The L3 order book: src/orderbook/l3_order_book.h and src/orderbook/l3_order_book.cpp.
pub mod State
pub mod Valid
pub mod Orders
pub mod Update
pub mod Insert
pub mod Shape
pub mod Match
pub mod Query
pub mod Book
pub mod Rest
pub mod Add
pub mod Remove
pub mod Removed
pub mod Held
pub mod Cancel
pub mod Cancelled
pub mod Reach
pub mod Priority
pub mod Fok
pub mod Quotes
pub mod Resting
pub mod Report
pub mod Rejected
pub mod Reported
pub mod Symbols
pub mod Ladder
mod Tests
