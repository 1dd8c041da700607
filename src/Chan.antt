-- ===== src/Chan.antt =====
-- The channel: the HTTP server and client of rs/v-m-io-chan.
pub mod Requests
pub mod Handlers
pub mod Client
pub mod Dispatch
pub mod Bind
pub mod Eligible
pub mod Justified
pub mod Start
pub mod Connections
