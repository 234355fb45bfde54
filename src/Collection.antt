-- ===== src/Collection.antt =====
-- The collections that rules write: src/collection/backend and src/actions/set_var.cc.
pub mod Data
pub mod InMemory
pub mod SetVar
mod Tests
