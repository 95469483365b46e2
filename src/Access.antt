-- ===== src/Access.antt =====
-- app/services/workspace_access_service.py and app/core/principal.py: the capabilities of a
-- workspace role, the overrides stored with a membership, and the access rules of knowledge
-- bases and skills. Ids are uuid texts that are only compared: they stand as numbers.
pub mod Roles
pub mod Override
pub mod Resolve
pub mod Principal
pub mod Resources
pub mod FounderOnly
pub mod Merge
pub mod Stored
pub mod RoundTrip
pub mod Visibility
mod Examples
