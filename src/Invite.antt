-- ===== src/Invite.antt =====
-- Invites to a workspace (app/services/workspace_invite_service.py).
pub mod Models
pub mod Emails
pub mod Guards
pub mod Manage
pub mod Preview
pub mod Join
pub mod Accept
pub mod Claim
pub mod Change
pub mod Orderly
pub mod Requests
pub mod Joins
pub mod Effects
pub mod Creation
pub mod Steps
pub mod Member
pub mod Accepted
pub mod Session
pub mod Addressed
mod Examples
