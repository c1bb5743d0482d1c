-- ===== src/Rbac.antt =====
-- crates/wyrd-runtime: resources, actions, permissions, permission sets, builtin roles and the check.
mod Names
pub mod Resource
pub mod Action
pub mod Permission
pub mod Principal
pub mod Check
mod Tests
