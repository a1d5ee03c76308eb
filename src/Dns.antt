-- ===== src/Dns.antt =====
-- internal/probe/dns: the wire format of the DNS service probe.
pub mod Parse
pub mod Message
pub mod Response
pub mod Safety
pub mod Names
pub mod RoundTrip
pub mod Accepted
pub mod Connection
pub mod Attempt
pub mod Lane
pub mod Ranking
pub mod Ended
pub mod Concluded
pub mod Service
pub mod Total
pub mod Run
pub mod Framing
pub mod Answered
mod Tests
