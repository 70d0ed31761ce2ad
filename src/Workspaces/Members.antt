-- ===== src/Workspaces/Members.antt =====
-- `get_workspace_members` of app/modules/workspaces/db/workspace_members_queries.py, the routes of
-- app/modules/workspaces/api/v1/routes.py and the bodies of schemas/response.py.
pub mod Listed
pub mod Roster
use relays.Prelude.{
  ℕ, String, ◌⊎◌, inl, inr, Bool, ◌&&◌, ◌||◌, Option, none, some, List, [], ◌∷◌, ◌++◌, map, Uuid,
  Time, ltb, ◌==◌, if◌then◌else◌,
}
use relays.Core.ErrorCode.{ErrorCode}
use relays.Core.Result.{Exception, Result, ok, err, api_exception, validation_error}
use relays.Table.{select_where}
use relays.Table.Order.{order_by}
use relays.Auth.Model.{User, Workspace, WorkspaceMember, WorkspaceMemberRole, WorkspaceStatus}
use relays.Auth.Queries.{get_workspace_by_id}
use relays.Auth.Validators.{EmailLibrary}

pub record WorkspaceBody : Type 0 where
  pub id : Uuid
  pub name : List ℕ
  pub slug : List ℕ
  pub status : WorkspaceStatus
  pub created_at : Time

-- The row of the join, and the body that is made of it.
pub record WorkspaceMemberBody : Type 0 where
  pub id : Uuid
  pub email : String
  pub name : List ℕ
  pub role : WorkspaceMemberRole

abbrev pub member_row : WorkspaceMember → User → WorkspaceMemberBody
member_row wm u = record { id = u.id; email = u.email; name = u.name; role = wm.role }

-- FROM workspace_members wm INNER JOIN users u ON wm.user_id = u.id WHERE wm.workspace_id = $1
unfoldable pub joined_members : Uuid → List User → List WorkspaceMember → List WorkspaceMemberBody
joined_members workspace_id users [] = []
joined_members workspace_id users (wm ∷ t) =
    let rest = joined_members workspace_id users t in
    if wm.workspace_id == workspace_id
    then map (member_row wm) (select_where (λ u. u.id == wm.user_id) users) ++ rest
    else rest

abbrev pub role_rank : WorkspaceMemberRole → ℕ
role_rank WorkspaceMemberRole.owner = 0
role_rank WorkspaceMemberRole.member = 1

-- ORDER BY the rank of the role, then the name, in the collation of the database.
unfoldable pub member_before :
    (collated : List ℕ → List ℕ → Bool) → WorkspaceMemberBody → WorkspaceMemberBody → Bool
member_before collated a b =
    ltb (role_rank a.role) (role_rank b.role)
    || (role_rank a.role == role_rank b.role && collated a.name b.name)

unfoldable pub get_workspace_members :
    (collated : List ℕ → List ℕ → Bool)
    → Uuid
    → List User
    → List WorkspaceMember
    → List WorkspaceMemberBody
get_workspace_members collated workspace_id users members =
    order_by (member_before collated) (joined_members workspace_id users members)

abbrev pub no_workspace : Exception
no_workspace =
    api_exception 404 ErrorCode.not_found "No workspace was found for the provided workspace_id."

abbrev workspace_body : Option Workspace → Result WorkspaceBody
workspace_body none = err no_workspace
workspace_body (some w) = ok (record {
  id = w.id;
  name = w.name;
  slug = w.slug;
  status = w.status;
  created_at = w.created_at;
})

unfoldable pub get_workspace_route : Uuid → List Workspace → Result WorkspaceBody
get_workspace_route workspace_id workspaces =
    workspace_body (get_workspace_by_id workspace_id workspaces)

-- `WorkspaceMemberBody.model_validate`: the address is checked again.
abbrev pub validated_member : WorkspaceMemberBody → String ⊎ String → Result WorkspaceMemberBody
validated_member m (inl message) = err validation_error
validated_member m (inr email) = ok (record m { email = email })

abbrev pub and_members :
    Result WorkspaceMemberBody
    → Result (List WorkspaceMemberBody)
    → Result (List WorkspaceMemberBody)
and_members (err e) rest = err e
and_members (ok m) (err e) = err e
and_members (ok m) (ok ms) = ok (m ∷ ms)

unfoldable pub members_response :
    EmailLibrary → List WorkspaceMemberBody → Result (List WorkspaceMemberBody)
members_response e [] = ok []
members_response e (m ∷ ms) =
    and_members (validated_member m (e.email_str m.email)) (members_response e ms)

abbrev members_or_missing :
    Option Workspace → Result (List WorkspaceMemberBody) → Result (List WorkspaceMemberBody)
members_or_missing none answer = err no_workspace
members_or_missing (some w) answer = answer

unfoldable pub get_workspace_members_route :
    EmailLibrary
    → (collated : List ℕ → List ℕ → Bool) → Uuid
    → List Workspace
    → List User
    → List WorkspaceMember
    → Result (List WorkspaceMemberBody)
get_workspace_members_route e collated workspace_id workspaces users members =
    members_or_missing (get_workspace_by_id workspace_id workspaces)
      (members_response e (get_workspace_members collated workspace_id users members))
