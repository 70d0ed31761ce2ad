-- ===== src/Auth/Guard.antt =====
-- app/infra/guards/jwt.py.
use relays.Prelude.{ℕ, String, not, Option, none, some, List, Uuid, Time, if◌then◌else◌}
use relays.Core.ErrorCode.{ErrorCode}
use relays.Core.Result.{Exception, Result, ok, err, api_exception}
use relays.Text.{chars, same_text}
use relays.Auth.Model.{AuthDatabase, WorkspaceMemberRole}
use relays.Auth.Queries.{WorkspaceContext, get_workspace_context}
use relays.Auth.Token.{Jwt, AccessTokenPayload, decode_access_token}

-- The header: its scheme in lower case, and what follows the first space, stripped of white space;
-- `none` if nothing follows it.
pub data Authorization (T : Type 0) : Type 0 where
  missing : Authorization T
  credentials : (scheme : List ℕ) → Option T → Authorization T

-- What the guard stores in `req.state`.
pub record JwtCaller : Type 0 where
  pub user_id : Uuid
  pub workspace_id : Uuid
  pub workspace_role : WorkspaceMemberRole

abbrev pub unauthorized : String → Exception
unauthorized message = api_exception 401 ErrorCode.unauthorized message

abbrev pub caller_of : Option WorkspaceContext → Result JwtCaller
caller_of none = err (unauthorized "User's Workspace Not Found")
caller_of (some context) = ok (record {
  user_id = context.user_id;
  workspace_id = context.workspace_id;
  workspace_role = context.role;
})

abbrev pub caller_with : AuthDatabase → Result AccessTokenPayload → Result JwtCaller
caller_with db (err e) = err e
caller_with db (ok payload) =
    caller_of (get_workspace_context payload.sub db.users db.workspace_members)

module _ {T : Type 0} (jwt : Jwt T) (clock : Time) where
  unfoldable pub authenticate_jwt : Authorization T → AuthDatabase → Result JwtCaller
  unfolding chars
  authenticate_jwt missing db = err (unauthorized "Missing Authorization header")
  authenticate_jwt (credentials scheme none) db = err (unauthorized "Invalid Authorization header")
  authenticate_jwt (credentials scheme (some token)) db =
      if not (same_text scheme (chars "bearer"))
      then err (unauthorized "Invalid Authorization header")
      else caller_with db (decode_access_token jwt clock token)
