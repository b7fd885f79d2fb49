-- ===== src/Iam.antt =====
-- internal/authz and internal/iam: permissions, roles, bindings and the resolver of grants.
pub mod Permissions
pub mod Roles
pub mod Resolver
pub mod Agreement
pub mod Table
pub mod Calls
pub mod Grounds
pub mod Selection
