-- ===== src/Router.antt =====
-- Routing within one runtime: src/router/.
pub mod Dedupe
pub mod Policy
pub mod TaskStore
