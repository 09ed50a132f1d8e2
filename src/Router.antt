-- ===== src/Router.antt =====
-- The package router, as far as it is modelled.
pub mod BigValue
pub mod Tables
