-- ===== src/Link/Served.antt =====
-- A link that serves a Redis client: `recv` and `send` around the server's response to an `mget`.
pub mod Pipeline
pub mod Commands
pub mod Einval
use dbss.Link.{Link}
