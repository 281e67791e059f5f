-- ===== src/Api.antt =====
-- web/src/api: the records that the server sends, and the client that fetches and streams them.
pub mod Records
pub mod Responses
pub mod Queries
pub mod Stream
pub mod Subscription
pub mod Session
pub mod Fetch
pub mod Samples
mod Tests
