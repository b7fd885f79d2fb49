-- ===== src/Label.antt =====
-- internal/label: resource labels and the selectors that match them.
pub mod Keys
pub mod Selectors
pub mod Parser
pub mod Bindings
pub mod KeyGrammar
pub mod Reading
pub mod RoundTrip
pub mod Matching
pub mod Safety
pub mod Fuel
