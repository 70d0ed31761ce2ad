-- ===== src/Tests/Registration.antt =====
-- An account from its registration, and slugs, on concrete data.
use relays.Core.Http.{Handling}
use relays.Workspaces.Slug.{IsSlug, slugify-IsSlug, slugify_idempotent}
use relays.Auth.Registration
use relays.Auth.Routes.{
  OtpBody, RegisterBody, AuthenticateUserResponse, create_account_route, current_user_route,
}
use relays.Auth.Statuses.{Route, declared_statuses}
use relays.Prelude.{ℕ, ◌≡◌, refl, false, some, List, [], ◌∷◌, arith, length}
use relays.Core.Result.{ok}
use relays.Table.{exists_row}
use relays.Text.{chars, keep, runs_from, split, split_onto, join, strip, lstrip, rstrip, is_one_of}
use relays.Workspaces.{slugify, validate_workspace_slug}
use relays.Auth.Model.{AuthDatabase}
use relays.Auth.Token.{
  Payload, RegistrationTokenPayload, create_access_token, decode_registration_token,
  registration_payload, text, number,
}
use relays.Auth.Login.{Env}
use relays.Auth.Account.{NewIds, create_account}
use relays.Auth.Account.Created.{IsUnused, with_account, create_account_lem}
use relays.Auth.Guard.{credentials}
use relays.Auth.Validators.{
  email_address, validate_email_address, validate_user_name, validate_workspace_name,
  validate_refresh_token,
}
use relays.Auth.SignedIn.{current_user_after_create_account}
use relays.Tests.Python.{ascii, ascii-IsPython, python, plain_jwt, plain_jwt-IsPyJwt}

-- " Ada  L" and "Acme  Co"
abbrev sent_name : List ℕ
sent_name = 32 ∷ 65 ∷ 100 ∷ 97 ∷ 32 ∷ 32 ∷ 76 ∷ []

abbrev pub name : List ℕ
name = 65 ∷ 100 ∷ 97 ∷ 32 ∷ 76 ∷ []

abbrev sent_title : List ℕ
sent_title = 65 ∷ 99 ∷ 109 ∷ 101 ∷ 32 ∷ 32 ∷ 67 ∷ 111 ∷ []

abbrev pub title : List ℕ
title = 65 ∷ 99 ∷ 109 ∷ 101 ∷ 32 ∷ 67 ∷ 111 ∷ []

slug_of_title : slugify ascii title ≡ 97 ∷ 99 ∷ 109 ∷ 101 ∷ 45 ∷ 99 ∷ 111 ∷ []
unfolding slugify keep runs_from strip lstrip rstrip
slug_of_title = refl

slugify_idempotent_example : slugify ascii (slugify ascii title) ≡ slugify ascii title
slugify_idempotent_example = slugify_idempotent ascii ascii-IsPython title

pub slug_is_valid : validate_workspace_slug (slugify ascii title) ≡ ok tt
unfolding slugify keep runs_from strip lstrip rstrip validate_workspace_slug is_one_of
slug_is_valid = refl

name_is_normal : validate_user_name ascii sent_name ≡ ok name
unfolding validate_user_name split split_onto join strip lstrip rstrip
name_is_normal = refl

title_is_normal : validate_workspace_name ascii sent_title ≡ ok title
unfolding validate_workspace_name split split_onto join strip lstrip rstrip is_one_of
title_is_normal = refl

abbrev pub env : Env
env = record {
  now = 150;
  clock = 150;
  sha512 = length;
  otp = [];
  otp_id = 9;
  refresh_token = 110 ∷ [];
  session_id = 30;
}

abbrev pub ids : NewIds
ids = record { user_id = 5; workspace_id = 40 }

abbrev pub nobody : AuthDatabase
nobody = record {
  users = [];
  workspaces = [];
  workspace_members = [];
  registration_otps = [];
  login_otps = [];
  sessions = [];
}

abbrev pub payload : RegistrationTokenPayload
payload = record {
  iss = some (text "relays");
  email = "ada@relays.dev";
  type = some (text "registration");
  iat = some (number 100);
  exp = some (number 1000);
}

pub nothing_taken : IsUnused env ids "ada@relays.dev" name title (slugify ascii title) nobody
unfolding exists_row
nothing_taken = record {
  user = refl;
  workspace = refl;
  member = refl;
  session = refl;
  lives = omega arith;
}

create_account_lem_example :
    create_account plain_jwt env ids ascii
      (registration_payload "ada@relays.dev" 100)
      name
      title
      nobody
    ≡ (
      ok (record { access_token = create_access_token plain_jwt 150 5; refresh_token = 110 ∷ [] }),
      with_account env ids "ada@relays.dev" name title (slugify ascii title) nobody,
    )
unfolding decode_registration_token
create_account_lem_example =
    create_account_lem plain_jwt env ids ascii (registration_payload "ada@relays.dev" 100) name
      title payload nobody refl slug_is_valid nothing_taken

abbrev body : RegisterBody Payload
body = record {
  registration_token = registration_payload "ada@relays.dev" 100;
  name = sent_name;
  workspace_name = sent_title;
}

current_user_after_create_account_example :
    let (answer, db') = create_account_route python plain_jwt env ids body nobody in
    (r : AuthenticateUserResponse Payload) × (answer ≡ ok r)
    × (current_user_route python plain_jwt 3000
          (credentials (chars "bearer") (some r.access_token))
          db'
        ≡ ok (record {
          user_id = 5;
          workspace_id = 40;
          name = name;
          email = "ada@relays.dev";
          workspace_name = title;
        }))
unfolding decode_registration_token email_address validate_email_address validate_refresh_token
    strip lstrip rstrip exists_row
current_user_after_create_account_example =
    current_user_after_create_account plain_jwt plain_jwt-IsPyJwt python ascii-IsPython env ids body
      name title payload 3000 nobody name_is_normal title_is_normal refl refl refl slug_is_valid
      nothing_taken refl (omega arith) (omega arith)

slugify-IsSlug_example : IsSlug (slugify ascii title)
slugify-IsSlug_example = slugify-IsSlug ascii title

abbrev signup : relays.Auth.Registration.Env
signup = record { now = 150; clock = 150; sha512 = length; otp = 49 ∷ 50 ∷ []; otp_id = 9 }

abbrev in_production : Handling
in_production = record { debug = false; request_id = some 77; str = λ _. "an exception" }

abbrev code_sent : OtpBody
code_sent = record { email = "ada@relays.dev"; otp = 49 ∷ 50 ∷ 51 ∷ 52 ∷ 53 ∷ 54 ∷ [] }

abbrev declared : Route → List ℕ
declared = declared_statuses
