-- ===== src/Workspaces/Members/Roster.antt =====
-- The members of a workspace that was registered.
use relays.Prelude.{
  ℕ, String, ◌≡◌, refl, ap, ◌∙◌, inr, Bool, false, ◌||◌, some, List, [], ◌∷◌, ◌++◌, arith, str_eq,
  Uuid, ◌==◌, ==_refl,
}
use relays.Core.Result.{ok}
use relays.Table.{exists_row, select_where}
use relays.Table.Laws.{find_first-append_new}
use relays.Table.Order.{order_by, insert_row}
use relays.Text.{Unicode, same_text}
use relays.Auth.Model.{AuthDatabase, User, Workspace, WorkspaceMember, WorkspaceMemberRole}
use relays.Auth.Queries.{get_workspace_by_id}
use relays.Auth.Token.{Jwt, RegistrationTokenPayload, decode_registration_token}
use relays.Auth.Login.{Env}
use relays.Auth.Account.{NewIds, create_account}
use relays.Auth.Account.Created.{
  IsUnused, with_account, new_user, new_workspace, new_member, create_account_lem,
}
use relays.Auth.Validators.{EmailLibrary}
use relays.Workspaces.{slugify, validate_workspace_slug}
use relays.Workspaces.Members.{
  WorkspaceMemberBody, joined_members, member_before, get_workspace_members, members_response,
  get_workspace_members_route,
}

no_rows :
    (workspace_id : Uuid) (users : List User) (t : List WorkspaceMember) (m : WorkspaceMember)
    → exists_row (λ x. x.workspace_id == workspace_id) t ≡ false
    → joined_members workspace_id users (t ++ m ∷ []) ≡ joined_members workspace_id users (m ∷ [])
unfolding joined_members exists_row
no_rows workspace_id users [] m free = refl
no_rows workspace_id users (x ∷ t) m free =
    ground (arith, free, no_rows workspace_id users t m (ground arith))

one_user :
    (t : List User) (u : User)
    → exists_row (λ x. x.id == u.id) t ≡ false
    → select_where (λ x. x.id == u.id) (t ++ u ∷ []) ≡ u ∷ []
unfolding select_where exists_row
one_user [] u free = rw (==_refl u.id) refl
one_user (x ∷ t) u free = ground (arith, free, one_user t u (ground arith))

module _ (env : Env) (ids : NewIds) (email : String) (name workspace_name slug : List ℕ)
    (db : AuthDatabase) (unused : IsUnused env ids email name workspace_name slug db)
    (no_members : exists_row (λ m. m.workspace_id == ids.workspace_id) db.workspace_members
      ≡ false) where
  abbrev db' : AuthDatabase
  db' = with_account env ids email name workspace_name slug db

  abbrev owner : WorkspaceMemberBody
  owner = record { id = ids.user_id; email = email; name = name; role = WorkspaceMemberRole.owner }

  free_user :
      (t : List User)
      → exists_row (λ v. str_eq v.email email || v.id == ids.user_id) t ≡ false
      → exists_row (λ v. v.id == ids.user_id) t ≡ false
  unfolding exists_row
  free_user [] h = refl
  free_user (x ∷ t) h = ground (arith, h, free_user t (ground arith))

  free_workspace :
      (t : List Workspace)
      → exists_row (λ v. same_text v.slug slug || v.id == ids.workspace_id) t ≡ false
      → exists_row (λ v. v.id == ids.workspace_id) t ≡ false
  unfolding exists_row
  free_workspace [] h = refl
  free_workspace (x ∷ t) h = ground (arith, h, free_workspace t (ground arith))

  listed :
      (collated : List ℕ → List ℕ → Bool)
      → get_workspace_members collated ids.workspace_id db'.users db'.workspace_members ≡ owner ∷ []
  unfolding get_workspace_members joined_members order_by insert_row
  listed collated =
      let join =
        no_rows ids.workspace_id db'.users db.workspace_members
          (new_member env ids email name workspace_name slug) no_members in
      let one =
        one_user db.users (new_user env ids email name workspace_name slug)
          (free_user db.users unused.user) in
      ap (order_by (member_before collated)) join ∙ rw (==_refl ids.workspace_id, one) refl

  found_workspace :
      get_workspace_by_id ids.workspace_id db'.workspaces
      ≡ some (new_workspace env ids email name workspace_name slug)
  unfolding get_workspace_by_id
  found_workspace =
      find_first-append_new (λ w. w.id == ids.workspace_id) db.workspaces _
        (free_workspace db.workspaces unused.workspace) (==_refl ids.workspace_id)

  answered :
      (e : EmailLibrary) (collated : List ℕ → List ℕ → Bool)
      → e.email_str email ≡ inr email
      → get_workspace_members_route e collated ids.workspace_id db'.workspaces db'.users
          db'.workspace_members
        ≡ ok (owner ∷ [])
  unfolding get_workspace_members_route members_response
  answered e collated kept = rw (found_workspace, listed collated, kept) refl

-- A registration that clashes with nothing gives its workspace one member: for a token that decodes, a
-- name whose slug is valid, and no row in the way, the route of the members answers the new user as the
-- owner and no one else. The check of addresses leaves the address as it is.
pub members_after_create_account :
    {T : Type 0} (jwt : Jwt T) (env : Env) (ids : NewIds) (u : Unicode) (e : EmailLibrary)
    (collated : List ℕ → List ℕ → Bool) (registration_token : T) (name workspace_name : List ℕ)
    (payload : RegistrationTokenPayload) (db : AuthDatabase)
    → decode_registration_token jwt env.clock registration_token ≡ ok payload
    → validate_workspace_slug (slugify u workspace_name) ≡ ok tt
    → IsUnused env ids payload.email name workspace_name (slugify u workspace_name) db
    → exists_row (λ m. m.workspace_id == ids.workspace_id) db.workspace_members ≡ false
    → e.email_str payload.email ≡ inr payload.email
    → let (_, db') = create_account jwt env ids u registration_token name workspace_name db in
      get_workspace_members_route e collated ids.workspace_id db'.workspaces db'.users
        db'.workspace_members
      ≡ ok (
          record {
            id = ids.user_id;
            email = payload.email;
            name = name;
            role = WorkspaceMemberRole.owner;
          }
          ∷ [])
members_after_create_account jwt env ids u e collated registration_token name workspace_name payload
      db decoded valid unused no_members kept =
    let done =
      create_account_lem jwt env ids u registration_token name workspace_name payload db decoded
        valid unused in
    ap
      (λ x.
        get_workspace_members_route e collated ids.workspace_id x.1.workspaces x.1.users
          x.1.workspace_members)
      done
    ∙ answered env ids payload.email name workspace_name (slugify u workspace_name) db unused
        no_members e collated kept
