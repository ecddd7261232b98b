-- ===== src/Tests.antt =====
-- Concrete runs of the gateway's parts.
mod Sample
mod Routing
mod Domains
mod Reconciling
mod Logins
mod RouteTables
mod Credentials
mod Tracing
mod Resolving
mod Delivering
mod Scheduling
mod Messages
mod Geodata
mod Storing
