-- ===== src/Application.antt =====
-- crates/application: the credential use cases over abstract ports.
pub mod Ports
pub mod Effect
pub mod Triples
pub mod Events
pub mod StatusChange
pub mod Issue
pub mod Replace
mod Examples
