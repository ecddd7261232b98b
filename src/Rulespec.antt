-- ===== src/Rulespec.antt =====
-- internal/rulespec: what the value of a rule means, shared by the API, the renderer and the route
-- engine. Error messages are constructors.
pub mod Domain
pub mod Address
pub mod Tag
pub mod Upstream
pub mod Values
