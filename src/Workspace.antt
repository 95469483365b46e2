-- ===== src/Workspace.antt =====
-- Workspaces and their members: app/services/workspace_membership_service.py and
-- app/services/workspace_admin_service.py over the tables of app/models.
-- A request that raises commits nothing, so an operation answers with the new tables only where
-- it succeeds. Ids and times are numbers; the time of the request and new ids are arguments.
pub mod Models
pub mod Queries
pub mod Resolution
pub mod Guards
pub mod Members
pub mod Founder
pub mod Slug
pub mod NormalSlug
pub mod Lifecycle
pub mod Count
pub mod MemberFounders
pub mod Present
pub mod FounderTransfer
pub mod Steps
pub mod Untouched
pub mod Invariant
pub mod Joined
pub mod Context
pub mod ContextFound
pub mod Examples
