-- ===== src/Route.antt =====
-- internal/probe/route: the parts of the route probe that choose a route from the table that the
-- system gives.
pub mod Netip
pub mod Select
pub mod Precedence
pub mod Best
pub mod Defaults
mod Tests
