-- ===== src/Types.antt =====
-- The models of types.gen.go.
pub mod Instant
pub mod Names
pub mod People
pub mod Money
pub mod Commerce
pub mod Deliveries
pub mod Sellers
pub mod Rewards
pub mod Ledger
pub mod Operator
pub mod Catalog
pub mod Parameters
pub mod RequestBodies
pub mod Values
pub mod MoreValues
pub mod ParameterValues
pub mod Enums
