-- ===== src/Remote/OAuth.antt =====
-- src/remote/oauth-handler.ts: registration of clients, authorization requests, and the exchange of
-- codes, whose definitions are passed on from State, Registration, Authorization and Token. A browser
-- is the transaction that its cookie names. `thrown` is an exception of the database.
mod State
mod Registration
mod Authorization
mod Token
pub mod Exchange
pub mod Once
pub mod Registered
pub mod Transactions
pub mod Clients
mod Tests
pub use State.*
unfoldable pub use Registration.*
unfoldable pub use Authorization.*
unfoldable pub use Token.*
