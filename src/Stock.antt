-- ===== src/Stock.antt =====
-- webapp/services/stock_service.py: the stock of a product as a balance that is carried forward from
-- period to period, a period being a date and a shift.
pub mod Database
pub mod Queries
pub mod Anchor
pub mod Carry
pub mod Window
pub mod Eligibility
pub mod View
pub mod Upsert
pub mod Tests
