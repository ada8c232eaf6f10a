-- ===== src/Api.antt =====
-- The requests on reviews, internal/api/handler/review.go: the creation, over the store and the
-- engine's Submit, and the cancellation. Which statements fail is an argument; the repository's
-- configuration row, which the creation also ensures, the JSON of a request and of an answer's data are
-- left out.
pub mod Names
mod Clone
pub mod Review
mod Answers
mod Tests
