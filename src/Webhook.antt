-- ===== src/Webhook.antt =====
-- The deliveries of the git providers, internal/api/handler/webhook.go, over the store and the engine's
-- Submit. The provider's reading of a request is an argument, as are the configuration and the
-- statements that fail; the repository's configuration row, which the handlers also ensure, and who
-- triggered a review are left out.
pub mod Event
pub mod Rows
pub mod Handler
mod Repeats
mod Replies
mod Revisions
mod Tests
