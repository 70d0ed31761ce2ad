-- ===== src/Tests/Members.antt =====
-- The members of workspaces on concrete data.
use mathlib.Core.List.{Perm}
use relays.Prelude.{
  ℕ, ◌≡◌, refl, ◌≢◌, ◌⊎◌, Bool, true, false, List, [], ◌∷◌, arith, Uuid, leb, ◌==◌, All, length,
}
use relays.Core.Result.{ok}
use relays.Table.{exists_row}
use relays.Auth.Model.{User, WorkspaceMember, WorkspaceMemberRole}
use relays.Auth.Token.{registration_payload, decode_registration_token}
use relays.Auth.Account.{create_account}
use relays.Workspaces.Members.{joined_members, get_workspace_members, get_workspace_members_route}
use relays.Workspaces.Members.Roster.{members_after_create_account}
use relays.Workspaces.Members.Listed.{IsCollation, Above, Member, get_workspace_members_lem}
use relays.Table.Partition.{EachBefore, IsIn}
use relays.Tests.Python.{ascii, python, plain_jwt}
use relays.Tests.Registration.{env, ids, name, title, payload, nobody, slug_is_valid, nothing_taken}

-- Names by their length.
abbrev shorter : List ℕ → List ℕ → Bool
shorter a b = leb (length a) (length b)

shorter-IsCollation : IsCollation shorter
shorter-IsCollation = record { total = λ a b h. ground arith; trans = λ a b c h k. ground arith }

abbrev user : Uuid → List ℕ → User
user id name = record {
  id = id;
  email = "someone@relays.dev";
  name = name;
  is_verified = true;
  created_at = 1;
  updated_at = 1;
}

abbrev users : List User
users = user 1 (65 ∷ 66 ∷ []) ∷ user 2 (67 ∷ []) ∷ user 3 (68 ∷ 69 ∷ 70 ∷ []) ∷ []

abbrev membership : Uuid → WorkspaceMemberRole → WorkspaceMember
membership user_id role = record { workspace_id = 8; user_id = user_id; role = role; joined_at = 1 }

abbrev memberships : List WorkspaceMember
memberships =
    membership 1 WorkspaceMemberRole.member
    ∷ membership 2 WorkspaceMemberRole.member
    ∷ membership 3 WorkspaceMemberRole.owner
    ∷ []

get_workspace_members_lem_example :
    let rows = get_workspace_members shorter 8 users memberships in
    EachBefore (Above shorter) rows
    × All (Member 8 users memberships) rows
    × All
        (λ wm.
          All
            (λ u.
              (wm.workspace_id ≢ 8)
              ⊎ ((wm.user_id ≢ u.id)
                  ⊎ IsIn
                      (record { id = u.id; email = u.email; name = u.name; role = wm.role })
                      rows))
            users)
        memberships
    × Perm rows (joined_members 8 users memberships)
get_workspace_members_lem_example =
    get_workspace_members_lem shorter shorter-IsCollation 8 users memberships

no_memberships : exists_row (λ (m : WorkspaceMember). m.workspace_id == 40) [] ≡ false
unfolding exists_row
no_memberships = refl

decoded :
    decode_registration_token plain_jwt 150 (registration_payload "ada@relays.dev" 100) ≡ ok payload
unfolding decode_registration_token
decoded = refl

members_after_create_account_example :
    let (_, db') =
      create_account plain_jwt env ids ascii
        (registration_payload "ada@relays.dev" 100)
        name
        title
        nobody in
    get_workspace_members_route python.email shorter 40 db'.workspaces db'.users
      db'.workspace_members
    ≡ ok (
        record { id = 5; email = "ada@relays.dev"; name = name; role = WorkspaceMemberRole.owner }
        ∷ [])
members_after_create_account_example =
    members_after_create_account plain_jwt env ids ascii python.email shorter
      (registration_payload "ada@relays.dev" 100) name title payload nobody decoded slug_is_valid
      nothing_taken no_memberships refl
