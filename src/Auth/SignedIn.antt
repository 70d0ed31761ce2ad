-- ===== src/Auth/SignedIn.antt =====
-- From the registration of an account to the first authenticated request.
use relays.Prelude.{
  ℕ, ◌+◌, ◌≤◌, ◌<◌, String, ◌≡◌, refl, ap, ◌∙◌, Bool, true, false, ◌&&◌, ◌||◌, some, List, [], ◌∷◌,
  arith, str_eq, Uuid, Time, ltb, ◌==◌, ==_refl,
}
use relays.Core.Result.{ok}
use relays.Table.{exists_row, find_first}
use relays.Table.Laws.{find_first-append_new, exists_row-find_first}
use relays.Text.{IsPython, chars, same_text}
use relays.Workspaces.{slugify, validate_workspace_slug}
use relays.Auth.Model.{AuthDatabase, User, Workspace, WorkspaceMember, WorkspaceMemberRole}
use relays.Auth.Queries.{get_workspace_context, get_current_user_context}
use relays.Auth.Token.{
  Jwt, RegistrationTokenPayload, text, number, decode_registration_token, decode_access_token,
  create_access_token,
}
use relays.Auth.Token.Lifetimes.{IsPyJwt, decode-create_access_token}
use relays.Auth.Login.{Env, get_current_user}
use relays.Auth.Account.{NewIds}
use relays.Auth.Account.Created.{
  with_account, new_user, new_workspace, new_member, IsUnused, create_account_lem,
}
use relays.Auth.Guard.{credentials, authenticate_jwt, caller_with, caller_of}
use relays.Auth.Validators.{
  email_address, validate_user_name, validate_workspace_name, validate_refresh_token,
}
use relays.Auth.Validators.Normal.{validate_user_name_again, validate_workspace_name_again}
use relays.Auth.Routes.{
  Pydantic, RegisterBody, AuthenticateUserResponse, create_account_route, register_body,
  tokens_response, current_user_route, current_user_response,
}

-- The rows of a condition that is part of another.
fewer :
    {R : Type 0} (p q : R → Bool) (t : List R)
    → exists_row p t ≡ false
    → exists_row (λ r. p r && q r) t ≡ false
unfolding exists_row
fewer p q [] h = refl
fewer p q (x ∷ t) h = ground (arith, fewer p q t)

user_id_free :
    (email : String) (id : Uuid) (t : List User)
    → exists_row (λ v. str_eq v.email email || v.id == id) t ≡ false
    → exists_row (λ v. v.id == id) t ≡ false
unfolding exists_row
user_id_free email id [] h = refl
user_id_free email id (x ∷ t) h = ground (arith, user_id_free email id t)

workspace_id_free :
    (slug : List ℕ) (id : Uuid) (t : List Workspace)
    → exists_row (λ v. same_text v.slug slug || v.id == id) t ≡ false
    → exists_row (λ v. v.id == id) t ≡ false
unfolding exists_row
workspace_id_free slug id [] h = refl
workspace_id_free slug id (x ∷ t) h = ground (arith, workspace_id_free slug id t)

get_workspace_context_found :
    (id : Uuid) (users : List User) (members : List WorkspaceMember) (u : User)
    (m : WorkspaceMember)
    → find_first (λ v. v.id == id) users ≡ some u
    → find_first (λ v. v.user_id == id) members ≡ some m
    → get_workspace_context id users members
      ≡ some (record {
        user_id = u.id;
        email = u.email;
        is_verified = u.is_verified;
        workspace_id = m.workspace_id;
        role = m.role;
      })
unfolding get_workspace_context
get_workspace_context_found id users members u m found found' = ground arith

get_current_user_found :
    (id : Uuid) (db : AuthDatabase) (u : User) (m : WorkspaceMember) (w : Workspace)
    → find_first (λ v. v.id == id) db.users ≡ some u
    → find_first
        (λ v. v.user_id == id && exists_row (λ x. x.id == v.workspace_id) db.workspaces)
        db.workspace_members
      ≡ some m
    → find_first (λ v. v.id == m.workspace_id) db.workspaces ≡ some w
    → get_current_user id db
      ≡ ok (record {
        user_id = u.id;
        name = u.name;
        email = u.email;
        workspace_id = w.id;
        workspace_name = w.name;
      })
unfolding get_current_user get_current_user_context
get_current_user_found id db u m w found found' found'' = ground arith

module _ (env : Env) (ids : NewIds) (email : String) (name workspace_name slug : List ℕ)
    (db : AuthDatabase) (unused : IsUnused env ids email name workspace_name slug db)
    (no_member : exists_row (λ m. m.user_id == ids.user_id) db.workspace_members ≡ false) where
  abbrev db' : AuthDatabase
  db' = with_account env ids email name workspace_name slug db

  abbrev user : User
  user = new_user env ids email name workspace_name slug

  abbrev workspace : Workspace
  workspace = new_workspace env ids email name workspace_name slug

  abbrev member : WorkspaceMember
  member = new_member env ids email name workspace_name slug

  found_user : find_first (λ v. v.id == ids.user_id) db'.users ≡ some user
  found_user =
      find_first-append_new (λ v. v.id == ids.user_id) db.users user
        (user_id_free email ids.user_id db.users unused.user) (==_refl ids.user_id)

  found_workspace : find_first (λ v. v.id == ids.workspace_id) db'.workspaces ≡ some workspace
  found_workspace =
      find_first-append_new (λ v. v.id == ids.workspace_id) db.workspaces workspace
        (workspace_id_free slug ids.workspace_id db.workspaces unused.workspace)
        (==_refl ids.workspace_id)

  found_member : find_first (λ m. m.user_id == ids.user_id) db'.workspace_members ≡ some member
  found_member =
      find_first-append_new (λ m. m.user_id == ids.user_id) db.workspace_members member no_member
        (==_refl ids.user_id)

  abbrev has_workspace : WorkspaceMember → Bool
  has_workspace m = exists_row (λ w. w.id == m.workspace_id) db'.workspaces

  member_has_workspace : has_workspace member ≡ true
  member_has_workspace =
      exists_row-find_first (λ w. w.id == ids.workspace_id) db'.workspaces workspace found_workspace

  found_joined :
      find_first (λ m. m.user_id == ids.user_id && has_workspace m) db'.workspace_members
      ≡ some member
  found_joined =
      find_first-append_new (λ m. m.user_id == ids.user_id && has_workspace m) db.workspace_members
        member (fewer (λ m. m.user_id == ids.user_id) has_workspace db.workspace_members no_member)
        (rw (==_refl ids.user_id, member_has_workspace) refl)

  known :
      get_workspace_context ids.user_id db'.users db'.workspace_members
      ≡ some (record {
        user_id = ids.user_id;
        email = email;
        is_verified = true;
        workspace_id = ids.workspace_id;
        role = WorkspaceMemberRole.owner;
      })
  known =
      get_workspace_context_found ids.user_id db'.users db'.workspace_members user member found_user
        found_member

  current :
      get_current_user ids.user_id db'
      ≡ ok (record {
        user_id = ids.user_id;
        name = name;
        email = email;
        workspace_id = ids.workspace_id;
        workspace_name = workspace_name;
      })
  current =
      get_current_user_found ids.user_id db' user member workspace found_user found_joined
        found_workspace

  module _ {T : Type 0} (jwt : Jwt T) (law : IsPyJwt jwt) (later : Time) (after : env.clock ≤ later)
      (early : later < env.clock + 3600) where
    decoded_access :
        decode_access_token jwt later (create_access_token jwt env.clock ids.user_id)
        ≡ ok (record {
          iss = some (text "relays");
          sub = ids.user_id;
          type = some (text "access");
          ver = some (number 1);
          iat = some (number env.clock);
          exp = some (number (env.clock + 3600));
        })
    decoded_access =
        let in_time : ltb later (env.clock + 3600) ≡ true = ground arith in
        decode-create_access_token jwt law ids.user_id env.clock later after ∙ rw in_time refl

    -- The guard lets the token in as the owner of the new workspace.
    let_in :
        authenticate_jwt jwt later
          (credentials (chars "bearer") (some (create_access_token jwt env.clock ids.user_id)))
          db'
        ≡ ok (record {
          user_id = ids.user_id;
          workspace_id = ids.workspace_id;
          workspace_role = WorkspaceMemberRole.owner;
        })
    unfolding authenticate_jwt chars
    let_in = ap (caller_with db') decoded_access ∙ ap caller_of known

    shown :
        (py : Pydantic)
        → validate_user_name py.unicode name ≡ ok name
        → email_address py.email email ≡ ok email
        → validate_workspace_name py.unicode workspace_name ≡ ok workspace_name
        → current_user_route py jwt later
            (credentials (chars "bearer") (some (create_access_token jwt env.clock ids.user_id)))
            db'
          ≡ ok (record {
            user_id = ids.user_id;
            workspace_id = ids.workspace_id;
            name = name;
            email = email;
            workspace_name = workspace_name;
          })
    unfolding current_user_route current_user_response
    shown py named addressed titled = rw (let_in, current, named, addressed, titled) refl

created_by_route :
    {T : Type 0} (jwt : Jwt T) (py : Pydantic) (env : Env) (ids : NewIds) (b : RegisterBody T)
    (name workspace_name : List ℕ) (payload : RegistrationTokenPayload) (db : AuthDatabase)
    → validate_user_name py.unicode b.name ≡ ok name
    → validate_workspace_name py.unicode b.workspace_name ≡ ok workspace_name
    → decode_registration_token jwt env.clock b.registration_token ≡ ok payload
    → validate_refresh_token py.unicode env.refresh_token ≡ ok env.refresh_token
    → validate_workspace_slug (slugify py.unicode workspace_name) ≡ ok tt
    → IsUnused env ids payload.email name workspace_name (slugify py.unicode workspace_name) db
    → create_account_route py jwt env ids b db ≡ (
      ok (record {
        access_token = create_access_token jwt env.clock ids.user_id;
        refresh_token = env.refresh_token;
        token_type = "Bearer";
      }),
      with_account env ids payload.email name workspace_name (slugify py.unicode workspace_name) db,
    )
unfolding create_account_route register_body tokens_response
created_by_route {T} jwt py env ids b name workspace_name payload db named titled decoded token_kept
      valid unused =
    rw
      (
        named,
        titled,
        create_account_lem jwt env ids py.unicode b.registration_token name workspace_name payload
            db decoded valid unused,
        token_kept,
      )
      refl

-- The whole way from a registration token to the first authenticated request. A body with acceptable
-- names, an accepted registration token, and nothing in the way of the new rows: the route makes the
-- account and gives its tokens, and for the hour of the access token the route of the current user,
-- under the scheme `bearer`, gives the address of the registration token and the names as they were
-- normalised. The address and the drawn refresh token are such that their validators keep them.
pub current_user_after_create_account :
    {T : Type 0} (jwt : Jwt T)
    → IsPyJwt jwt
    → (py : Pydantic) → IsPython py.unicode
    → (env : Env) (ids : NewIds) (b : RegisterBody T) (name workspace_name : List ℕ)
      (payload : RegistrationTokenPayload) (later : Time) (db : AuthDatabase)
    → validate_user_name py.unicode b.name ≡ ok name
    → validate_workspace_name py.unicode b.workspace_name ≡ ok workspace_name
    → decode_registration_token jwt env.clock b.registration_token ≡ ok payload
    → email_address py.email payload.email ≡ ok payload.email
    → validate_refresh_token py.unicode env.refresh_token ≡ ok env.refresh_token
    → validate_workspace_slug (slugify py.unicode workspace_name) ≡ ok tt
    → IsUnused env ids payload.email name workspace_name (slugify py.unicode workspace_name) db
    → exists_row (λ m. m.user_id == ids.user_id) db.workspace_members ≡ false
    → env.clock ≤ later
    → later < env.clock + 3600
    → let (answer, db') = create_account_route py jwt env ids b db in
      (r : AuthenticateUserResponse T) × (answer ≡ ok r)
      × (current_user_route py jwt later (credentials (chars "bearer") (some r.access_token)) db'
          ≡ ok (record {
            user_id = ids.user_id;
            workspace_id = ids.workspace_id;
            name = name;
            email = payload.email;
            workspace_name = workspace_name;
          }))
current_user_after_create_account {T} jwt law py python env ids b name workspace_name payload later
      db named titled decoded email_kept token_kept valid unused no_member after early =
    let done =
      created_by_route jwt py env ids b name workspace_name payload db named titled decoded
        token_kept valid unused in
    (
      _,
      ap (λ x. x.0) done,
      ap
            (λ x.
              current_user_route py jwt later
                (credentials (chars "bearer")
                  (some (create_access_token jwt env.clock ids.user_id)))
                x.1)
            done
          ∙ shown env ids payload.email name workspace_name (slugify py.unicode workspace_name) db
              unused no_member jwt law later after early py
              (validate_user_name_again py.unicode python b.name name named) email_kept
              (validate_workspace_name_again py.unicode python b.workspace_name workspace_name
                titled),
    )
