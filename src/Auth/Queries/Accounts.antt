-- ===== src/Auth/Queries/Accounts.antt =====
-- app/modules/workspaces/db: users, workspaces and their members.
use relays.Prelude.{
  ℕ, String, Bool, true, false, ◌&&◌, ◌||◌, Option, List, str_eq, Uuid, Time, ◌==◌,
}
use relays.Text.{same_text}
use relays.Table.{find_first, update_returning, insert_returning}
use relays.Core.Result.{Action}
use relays.Auth.Model.{User, Workspace, WorkspaceMember, WorkspaceStatus, WorkspaceMemberRole}

-- users

unfoldable pub get_user_by_id : Uuid → List User → Option User
get_user_by_id id t = find_first (λ u. u.id == id) t

unfoldable pub get_user_by_email : String → List User → Option User
get_user_by_email email t = find_first (λ u. str_eq u.email email) t

unfoldable pub create_user :
    (id : Uuid) (now : Time) (name : List ℕ) (email : String) → Action (List User) User
create_user id now name email =
    insert_returning (λ _. true) (λ u v. str_eq v.email u.email || v.id == u.id)
      (record {
        id = id;
        email = email;
        name = name;
        is_verified = true;
        created_at = now;
        updated_at = now;
      })

unfoldable pub update_user_name : (now : Time) → Uuid → List ℕ → Action (List User) (Option User)
update_user_name now id name =
    update_returning (λ _. true) (λ u. u.id == id) (λ u. record u { name = name; updated_at = now })

-- workspaces; a slug is the list of its characters

unfoldable pub create_workspace :
    (id : Uuid) (now : Time) (workspace_name : List ℕ)
    → (slug : List ℕ) → Action (List Workspace) Workspace
create_workspace id now workspace_name slug =
    insert_returning (λ _. true) (λ u v. same_text v.slug u.slug || v.id == u.id)
      (record {
        id = id;
        name = workspace_name;
        slug = slug;
        status = WorkspaceStatus.active;
        created_at = now;
        updated_at = now;
      })

unfoldable pub update_workspace_name :
    (now : Time) → Uuid → List ℕ → Action (List Workspace) (Option Workspace)
update_workspace_name now id workspace_name =
    update_returning (λ _. true) (λ w. w.id == id)
      (λ w. record w { name = workspace_name; updated_at = now })

unfoldable pub get_workspace_by_id : Uuid → List Workspace → Option Workspace
get_workspace_by_id id t = find_first (λ w. w.id == id) t

unfoldable pub get_workspace_by_slug : List ℕ → List Workspace → Option Workspace
get_workspace_by_slug slug t = find_first (λ w. same_text w.slug slug) t

-- workspace_members

abbrev is_owner : WorkspaceMemberRole → Bool
is_owner WorkspaceMemberRole.owner = true
is_owner WorkspaceMemberRole.member = false

-- The primary key, and the unique index on the owner of a workspace.
abbrev pub same_membership : WorkspaceMember → WorkspaceMember → Bool
same_membership m n =
    (n.workspace_id == m.workspace_id && n.user_id == m.user_id)
    || (n.workspace_id == m.workspace_id && is_owner n.role && is_owner m.role)

unfoldable pub create_workspace_membership :
    (now : Time) (workspace_id user_id : Uuid)
    → WorkspaceMemberRole
    → Action (List WorkspaceMember) WorkspaceMember
create_workspace_membership now workspace_id user_id role =
    insert_returning (λ _. true) same_membership
      (record { workspace_id = workspace_id; user_id = user_id; role = role; joined_at = now })

unfoldable pub get_workspace_member :
    (workspace_id user_id : Uuid) → List WorkspaceMember → Option WorkspaceMember
get_workspace_member workspace_id user_id t =
    find_first (λ m. m.workspace_id == workspace_id && m.user_id == user_id) t
