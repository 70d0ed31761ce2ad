-- ===== src/Auth/Account/Created.antt =====
-- The account that a registration token makes, and who its tokens let in.
use relays.Prelude.{
  ℕ, ◌+◌, ◌*◌, ◌<◌, String, ◌≡◌, refl, ap, ◌∙◌, true, false, ◌||◌, Option, none, List, [], ◌∷◌,
  ◌++◌, arith, str_eq, Uuid, ◌==◌, is_some,
}
use relays.Core.Result.{Result, ok, ◌>>◌, conflict_result, raise_if}
use relays.Core.Triple.{bind_ok, transaction_ok}
use relays.Table.{exists_row, find_first}
use relays.Table.Laws.{insert_returning_ok}
use relays.Text.{Unicode, same_text}
use relays.Workspaces.{slugify, validate_workspace_slug}
use relays.Auth.Model.{
  AuthDatabase, User, Workspace, WorkspaceMember, WorkspaceMemberRole, WorkspaceStatus, Session,
}
use relays.Auth.Queries.{
  get_user_by_email, get_workspace_by_slug, create_user, create_workspace,
  create_workspace_membership, create_session, same_membership, same_session, session_check,
}
use relays.Auth.Token.{
  Jwt, RegistrationTokenPayload, decode_registration_token, create_access_token,
}
use relays.Auth.Login.{Env, Tokens, on_sessions, tokens_for}
use relays.Auth.Account.{
  NewIds, on_users, on_workspaces, on_members, create_account, account_with_payload,
  account_with_slug, account_in_transaction, add_account, add_workspace, add_membership,
  add_session, refuse_email, refuse_slug, account_conflict, email_registered, name_taken,
}

module _ (env : Env) (ids : NewIds) (email : String) (name workspace_name slug : List ℕ) where
  abbrev pub new_user : User
  new_user = record {
    id = ids.user_id;
    email = email;
    name = name;
    is_verified = true;
    created_at = env.now;
    updated_at = env.now;
  }

  abbrev pub new_workspace : Workspace
  new_workspace = record {
    id = ids.workspace_id;
    name = workspace_name;
    slug = slug;
    status = WorkspaceStatus.active;
    created_at = env.now;
    updated_at = env.now;
  }

  abbrev pub new_member : WorkspaceMember
  new_member = record {
    workspace_id = ids.workspace_id;
    user_id = ids.user_id;
    role = WorkspaceMemberRole.owner;
    joined_at = env.now;
  }

  abbrev pub new_session : Session
  new_session = record {
    id = env.session_id;
    user_id = ids.user_id;
    refresh_token_hash = env.sha512 env.refresh_token;
    expires_at = env.clock + 30 * 24 * 60 * 60;
    revoked_at = none;
    created_at = env.now;
  }

  abbrev pub with_account : AuthDatabase → AuthDatabase
  with_account db = record db {
    users = db.users ++ new_user ∷ [];
    workspaces = db.workspaces ++ new_workspace ∷ [];
    workspace_members = db.workspace_members ++ new_member ∷ [];
    sessions = db.sessions ++ new_session ∷ [];
  }

  -- The address, the slug, the drawn identifiers and the digest of the drawn token are unused, and the
  -- session is not born expired.
  pub record IsUnused (db : AuthDatabase) : Type 0 where
    pub user : exists_row (λ v. str_eq v.email email || v.id == ids.user_id) db.users ≡ false
    pub workspace :
        exists_row (λ v. same_text v.slug slug || v.id == ids.workspace_id) db.workspaces ≡ false
    pub member : exists_row (same_membership new_member) db.workspace_members ≡ false
    pub session : exists_row (same_session new_session) db.sessions ≡ false
    pub lives : env.now < env.clock + 30 * 24 * 60 * 60

free_email :
    (email : String) (id : Uuid) (t : List User)
    → exists_row (λ v. str_eq v.email email || v.id == id) t ≡ false
    → get_user_by_email email t ≡ none
unfolding exists_row find_first get_user_by_email
free_email email id [] h = refl
free_email email id (x ∷ t) h = ground (arith, free_email email id t)

free_slug :
    (slug : List ℕ) (id : Uuid) (t : List Workspace)
    → exists_row (λ v. same_text v.slug slug || v.id == id) t ≡ false
    → get_workspace_by_slug slug t ≡ none
unfolding exists_row find_first get_workspace_by_slug
free_slug slug id [] h = refl
free_slug slug id (x ∷ t) h = ground (arith, free_slug slug id t)

module _ {T : Type 0} (jwt : Jwt T) (env : Env) (ids : NewIds) (email : String)
    (name workspace_name slug : List ℕ) (db : AuthDatabase)
    (unused : IsUnused env ids email name workspace_name slug db) where
  abbrev tokens : Tokens T
  tokens = record {
    access_token = create_access_token jwt env.clock ids.user_id;
    refresh_token = env.refresh_token;
  }

  abbrev user : User
  user = new_user env ids email name workspace_name slug

  abbrev workspace : Workspace
  workspace = new_workspace env ids email name workspace_name slug

  abbrev member : WorkspaceMember
  member = new_member env ids email name workspace_name slug

  abbrev session : Session
  session = new_session env ids email name workspace_name slug

  abbrev db1 : AuthDatabase
  db1 = record db { users = db.users ++ user ∷ [] }

  abbrev db2 : AuthDatabase
  db2 = record db1 { workspaces = db.workspaces ++ workspace ∷ [] }

  abbrev db3 : AuthDatabase
  db3 = record db2 { workspace_members = db.workspace_members ++ member ∷ [] }

  added :
      add_account jwt env ids email name workspace_name slug db
      ≡ (ok tokens, with_account env ids email name workspace_name slug db)
  unfolding add_account add_workspace add_membership add_session on_users on_workspaces on_members
      on_sessions create_user create_workspace create_workspace_membership create_session
  added =
      bind_ok {B = Tokens T} (on_users (create_user ids.user_id env.now name email))
        (add_workspace jwt env ids workspace_name slug)
        (ap (λ (x : Result User × List User). (x.0, record db { users = x.1 }))
          (insert_returning_ok _ _ user db.users refl unused.user))
      ∙ bind_ok {B = Tokens T}
          (on_workspaces (create_workspace ids.workspace_id env.now workspace_name slug))
          (add_membership jwt env ids user)
          (ap (λ (x : Result Workspace × List Workspace). (x.0, record db1 { workspaces = x.1 }))
            (insert_returning_ok _ _ workspace db.workspaces refl unused.workspace))
      ∙ bind_ok {B = Tokens T}
          (on_members (
            create_workspace_membership env.now ids.workspace_id ids.user_id
              WorkspaceMemberRole.owner))
          (add_session jwt env ids user)
          (ap
            (λ (x : Result WorkspaceMember × List WorkspaceMember).
              (x.0, record db2 { workspace_members = x.1 }))
            (insert_returning_ok _ _ member db.workspace_members refl unused.member))
      ∙ bind_ok {B = Tokens T}
          (on_sessions (
            create_session env.session_id env.now ids.user_id (env.sha512 env.refresh_token)
              (env.clock + 30 * 24 * 60 * 60)))
          (tokens_for jwt env ids.user_id)
          (ap (λ (x : Result Session × List Session). (x.0, record db3 { sessions = x.1 }))
            (insert_returning_ok session_check same_session session db.sessions
              (ground (arith, unused.lives)) unused.session))

  checked :
      account_in_transaction jwt env ids email name workspace_name slug db
      ≡ (ok tokens, with_account env ids email name workspace_name slug db)
  unfolding account_in_transaction
  checked =
      bind_ok {B = Tokens T} (refuse_email email)
        (λ _. refuse_slug slug >> add_account jwt env ids email name workspace_name slug)
        (ap (λ (o : Option User). (raise_if (is_some o) email_registered) db)
          (free_email email ids.user_id db.users unused.user))
      ∙ bind_ok {B = Tokens T} (refuse_slug slug)
          (λ _. add_account jwt env ids email name workspace_name slug)
          (ap (λ (o : Option Workspace). (raise_if (is_some o) name_taken) db)
            (free_slug slug ids.workspace_id db.workspaces unused.workspace))
      ∙ added

  created_with_slug :
      account_with_slug jwt env ids email name workspace_name slug (ok tt) db
      ≡ (ok tokens, with_account env ids email name workspace_name slug db)
  unfolding account_with_slug
  created_with_slug =
      ap (λ (x : Result (Tokens T) × AuthDatabase). (conflict_result account_conflict x.0, x.1))
        (transaction_ok (account_in_transaction jwt env ids email name workspace_name slug) checked)

-- A registration token that is accepted, with a name whose slug is valid and unused, makes an account:
-- one user with the address of the token, one active workspace with the slug of its name, the user's
-- membership as its owner, and one session. The tokens are for that user and that session.
pub create_account_lem :
    {T : Type 0} (jwt : Jwt T) (env : Env) (ids : NewIds) (u : Unicode) (registration_token : T)
    (name workspace_name : List ℕ) (payload : RegistrationTokenPayload) (db : AuthDatabase)
    → decode_registration_token jwt env.clock registration_token ≡ ok payload
    → let slug = slugify u workspace_name in
      validate_workspace_slug slug ≡ ok tt
      → IsUnused env ids payload.email name workspace_name slug db
      → create_account jwt env ids u registration_token name workspace_name db ≡ (
        ok (record {
          access_token = create_access_token jwt env.clock ids.user_id;
          refresh_token = env.refresh_token;
        }),
        with_account env ids payload.email name workspace_name slug db,
      )
unfolding create_account account_with_payload
create_account_lem {T} jwt env ids u registration_token name workspace_name payload db decoded valid
      unused =
    let slug = slugify u workspace_name in
    ap (λ r. account_with_payload jwt env ids u name workspace_name r db) decoded
    ∙ ap (λ r. account_with_slug jwt env ids payload.email name workspace_name slug r db) valid
    ∙ created_with_slug jwt env ids payload.email name workspace_name slug db unused
