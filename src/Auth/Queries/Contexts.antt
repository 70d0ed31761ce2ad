-- ===== src/Auth/Queries/Contexts.antt =====
-- app/modules/workspaces/db/context_queries.py.
use relays.Prelude.{ℕ, String, Bool, ◌&&◌, Option, none, some, List, Uuid, ◌==◌}
use relays.Table.{find_first, exists_row}
use relays.Auth.Model.{User, Workspace, WorkspaceMember, WorkspaceMemberRole}

-- context_queries.py: a user joined with its membership.
pub record WorkspaceContext : Type 0 where
  pub user_id : Uuid
  pub email : String
  pub is_verified : Bool
  pub workspace_id : Uuid
  pub role : WorkspaceMemberRole

unfoldable pub get_workspace_context :
    Uuid → List User → List WorkspaceMember → Option WorkspaceContext
get_workspace_context user_id users members = elim (find_first (λ u. u.id == user_id) users) [
  | none ↦ none
  | some u ↦ elim (find_first (λ m. m.user_id == user_id) members) [
    | none ↦ none
    | some m ↦ some (record {
      user_id = u.id;
      email = u.email;
      is_verified = u.is_verified;
      workspace_id = m.workspace_id;
      role = m.role;
    })
  ]
]

pub record CurrentUserContext : Type 0 where
  pub user_id : Uuid
  pub name : List ℕ
  pub email : String
  pub workspace_id : Uuid
  pub workspace_name : List ℕ

unfoldable pub get_current_user_context :
    Uuid → List User → List WorkspaceMember → List Workspace → Option CurrentUserContext
get_current_user_context user_id users members workspaces =
    elim (find_first (λ u. u.id == user_id) users) [
      | none ↦ none
      | some u ↦
          elim (find_first
            (λ m. m.user_id == user_id && exists_row (λ w. w.id == m.workspace_id) workspaces)
            members) [
              | none ↦ none
              | some m ↦ elim (find_first (λ w. w.id == m.workspace_id) workspaces) [
                | none ↦ none
                | some w ↦ some (record {
                  user_id = u.id;
                  name = u.name;
                  email = u.email;
                  workspace_id = w.id;
                  workspace_name = w.name;
                })
              ]
            ]
    ]
