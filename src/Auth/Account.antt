-- ===== src/Auth/Account.antt =====
-- app/modules/auth/workflows/registration/create_account.py.
pub mod Created
use relays.Prelude.{
  ℕ, zero, suc, ◌+◌, ◌-◌, ◌*◌, ◌^◌, ◌≤◌, ◌<◌, min, String, ◌≡◌, refl, sym, ap, subst, ◌∙◌, ◌≢◌, ◌⊎◌,
  inl, inr, Bool, true, false, not, ◌&&◌, ◌||◌, Option, none, some, List, [], ◌∷◌, ◌++◌, map, arith,
  str_eq, Uuid, Digest, Time, ltb, leb, ◌==◌, if◌then◌else◌, Bool-cases, Option-cases, ==_refl,
  is_some, map_option, All, length, take, All-append, All-map, length-append,
}
use relays.Core.ErrorCode.{ErrorCode}
use relays.Core.Result.{
  Exception, Result, ok, err, Action, api_exception, value_error, pure, raise, raise_if,
  on_unique_violation, transaction, ◌>>=◌, ◌>>◌,
}
use relays.Text.{Unicode, chars}
use relays.Workspaces.{slugify, validate_workspace_slug}
use relays.Auth.Model.{AuthDatabase, User, Workspace, WorkspaceMember, WorkspaceMemberRole, Session}
use relays.Auth.Queries.{
  get_user_by_email, get_workspace_by_slug, create_user, create_workspace,
  create_workspace_membership, create_session,
}
use relays.Auth.Token.{Jwt, RegistrationTokenPayload, decode_registration_token}
use relays.Auth.Login.{Env, Tokens, on_sessions, tokens_for}

module _ {A : Type 0} where
  unfoldable pub on_users : Action (List User) A → Action AuthDatabase A
  on_users m db = let (r, t) = m db.users in (r, record db { users = t })

  unfoldable pub on_workspaces : Action (List Workspace) A → Action AuthDatabase A
  on_workspaces m db = let (r, t) = m db.workspaces in (r, record db { workspaces = t })

  unfoldable pub on_members : Action (List WorkspaceMember) A → Action AuthDatabase A
  on_members m db = let (r, t) = m db.workspace_members in (r, record db { workspace_members = t })

-- What a call takes from outside, with the UUIDs of the rows that it makes.
pub record NewIds : Type 0 where
  pub user_id : Uuid
  pub workspace_id : Uuid

abbrev pub email_registered : Exception
email_registered =
    api_exception 409 ErrorCode.conflict "A user has already been registered with this email."

abbrev pub name_taken : Exception
name_taken = api_exception 409 ErrorCode.conflict "Workspace Name is not available."

abbrev pub account_conflict : String
account_conflict = "A user or workspace with the provided information already exists."

abbrev pub refuse_email : String → Action AuthDatabase (Unit {0})
refuse_email email db = raise_if (is_some (get_user_by_email email db.users)) email_registered db

abbrev pub refuse_slug : List ℕ → Action AuthDatabase (Unit {0})
refuse_slug slug db = raise_if (is_some (get_workspace_by_slug slug db.workspaces)) name_taken db

-- `except ValueError` around the check of the slug.
abbrev pub bad_request_of : Exception → Exception
bad_request_of (value_error message) = api_exception 400 ErrorCode.invalid_request message
bad_request_of e = e

module _ {T : Type 0} (jwt : Jwt T) (env : Env) (ids : NewIds) where
  unfoldable pub add_session : User → WorkspaceMember → Action AuthDatabase (Tokens T)
  add_session user _ =
      on_sessions (
        create_session env.session_id env.now user.id (env.sha512 env.refresh_token)
          (env.clock + 30 * 24 * 60 * 60))
      >>= tokens_for jwt env user.id

  unfoldable pub add_membership : User → Workspace → Action AuthDatabase (Tokens T)
  add_membership user workspace =
      on_members
        (create_workspace_membership env.now workspace.id user.id WorkspaceMemberRole.owner)
      >>= add_session user

  unfoldable pub add_workspace :
      (workspace_name : List ℕ) (slug : List ℕ) → User → Action AuthDatabase (Tokens T)
  add_workspace workspace_name slug user =
      on_workspaces (create_workspace ids.workspace_id env.now workspace_name slug)
      >>= add_membership user

  unfoldable pub add_account :
      (email : String) (name workspace_name slug : List ℕ) → Action AuthDatabase (Tokens T)
  add_account email name workspace_name slug =
      on_users (create_user ids.user_id env.now name email) >>= add_workspace workspace_name slug

  unfoldable pub account_in_transaction :
      (email : String) (name workspace_name slug : List ℕ) → Action AuthDatabase (Tokens T)
  account_in_transaction email name workspace_name slug =
      refuse_email email >> (refuse_slug slug >> add_account email name workspace_name slug)

  unfoldable pub account_with_slug :
      (email : String) (name workspace_name slug : List ℕ)
      → Result (Unit {0})
      → Action AuthDatabase (Tokens T)
  account_with_slug email name workspace_name slug (err e) = raise (bad_request_of e)
  account_with_slug email name workspace_name slug (ok _) =
      on_unique_violation account_conflict
        (transaction (account_in_transaction email name workspace_name slug))

  unfoldable pub account_with_payload :
      Unicode
      → (name workspace_name : List ℕ) → Result RegistrationTokenPayload
      → Action AuthDatabase (Tokens T)
  account_with_payload u name workspace_name (err e) = raise e
  account_with_payload u name workspace_name (ok payload) =
      account_with_slug payload.email name workspace_name (slugify u workspace_name)
        (validate_workspace_slug (slugify u workspace_name))

  unfoldable pub create_account :
      Unicode
      → (registration_token : T) (name workspace_name : List ℕ) → Action AuthDatabase (Tokens T)
  create_account u registration_token name workspace_name =
      account_with_payload u name workspace_name
        (decode_registration_token jwt env.clock registration_token)
