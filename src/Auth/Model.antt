-- ===== src/Auth/Model.antt =====
-- The rows of the tables users, workspaces, workspace_members, registration_otp, login_otp and
-- sessions (app/infra/db/schemas). A name is the list of its characters' numbers.
use relays.Prelude.{ℕ, String, Bool, Option, List, Uuid, Digest, Time}

pub record User : Type 0 where
  pub id : Uuid
  pub email : String
  pub name : List ℕ
  pub is_verified : Bool
  pub created_at : Time
  pub updated_at : Time

pub data WorkspaceStatus : Type 0 where
  active suspended deleted : WorkspaceStatus

pub data WorkspaceMemberRole : Type 0 where
  owner member : WorkspaceMemberRole

pub record Workspace : Type 0 where
  pub id : Uuid
  pub name : List ℕ
  pub slug : List ℕ
  pub status : WorkspaceStatus
  pub created_at : Time
  pub updated_at : Time

pub record WorkspaceMember : Type 0 where
  pub workspace_id : Uuid
  pub user_id : Uuid
  pub role : WorkspaceMemberRole
  pub joined_at : Time

pub record RegistrationOtp : Type 0 where
  pub id : Uuid
  pub email : String
  pub otp_hash : Digest
  pub expires_at : Time
  pub consumed_at : Option Time
  pub created_at : Time

pub record LoginOtp : Type 0 where
  pub id : Uuid
  pub user_id : Uuid
  pub otp_hash : Digest
  pub expires_at : Time
  pub consumed_at : Option Time
  pub created_at : Time

pub record Session : Type 0 where
  pub id : Uuid
  pub user_id : Uuid
  pub refresh_token_hash : Digest
  pub expires_at : Time
  pub revoked_at : Option Time
  pub created_at : Time

-- The tables that the authentication code reads and writes.
pub record AuthDatabase : Type 0 where
  pub users : List User
  pub workspaces : List Workspace
  pub workspace_members : List WorkspaceMember
  pub registration_otps : List RegistrationOtp
  pub login_otps : List LoginOtp
  pub sessions : List Session
