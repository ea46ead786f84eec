-- ===== src/Api.antt =====
-- The methods of the client: users.go, money.go, commerce.go and webhooks_api.go.
pub mod Values
pub mod Query
pub mod Calls
pub mod Setting
pub mod Merged
pub mod Escaped
pub mod Decoded
pub mod Readable
pub mod Sent
pub mod Keyed
pub mod Movements
pub mod Listings
pub mod Answered
pub mod Wire
pub mod Recovered
pub mod Cataloged
pub mod Users
pub mod Money
pub mod Subscriptions
pub mod Commerce
pub mod Deliveries
