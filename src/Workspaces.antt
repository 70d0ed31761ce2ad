-- ===== src/Workspaces.antt =====
-- app/modules/workspaces/constants.py: the slug of a workspace.
pub mod Members
pub mod Slug
use relays.Prelude.{
  ℕ, zero, suc, ◌+◌, ◌-◌, ◌*◌, ◌^◌, ◌≤◌, ◌<◌, min, String, ◌≡◌, refl, sym, ap, subst, ◌∙◌, ◌≢◌, ◌⊎◌,
  inl, inr, Bool, true, false, not, ◌&&◌, ◌||◌, Option, none, some, List, [], ◌∷◌, ◌++◌, map, arith,
  str_eq, Uuid, Digest, Time, ltb, leb, ◌==◌, if◌then◌else◌, Bool-cases, Option-cases, ==_refl,
  is_some, map_option, All, length, take, All-append, All-map, length-append,
}
use relays.Core.Result.{Result, ok, err, value_error}
use relays.Text.{is_one_of, Unicode, chars, is_nil, strip, keep, runs_from}

abbrev pub is_alnum : ℕ → Bool
is_alnum c = (leb 97 c && leb c 122) || (leb 48 c && leb c 57)

abbrev pub is_dash : ℕ → Bool
is_dash c = c == 45

-- `[a-z0-9-]`
abbrev pub slug_char : ℕ → Bool
slug_char c = is_alnum c || is_dash c

module _ (u : Unicode) where
  -- `[\s_]`
  abbrev pub is_gap : ℕ → Bool
  is_gap c = u.is_space c || c == 95

  -- The text before repeated hyphens are collapsed and the outer ones stripped.
  unfoldable pub hyphenated : List ℕ → List ℕ
  hyphenated value = keep slug_char (runs_from is_gap false 45 (u.lower (strip u.is_space value)))

  unfoldable pub slugify : List ℕ → List ℕ
  unfolding hyphenated
  slugify value = strip is_dash (runs_from is_dash false 45 (hyphenated value))

abbrev pub reserved_workspace_slugs : List String
reserved_workspace_slugs =
    "admin" ∷ "administrator" ∷ "api" ∷ "app" ∷ "auth" ∷ "billing" ∷ "dashboard" ∷ "docs" ∷ "help"
    ∷ "login" ∷ "logout" ∷ "me" ∷ "register" ∷ "root" ∷ "settings" ∷ "support" ∷ "system" ∷ "www"
    ∷ "dev" ∷ "development" ∷ "prod" ∷ "production" ∷ "staging" ∷ "sandbox" ∷ "qa" ∷ "test"
    ∷ "testing" ∷ []

unfoldable pub validate_workspace_slug : List ℕ → Result (Unit {0})
unfolding is_one_of
validate_workspace_slug slug =
    if is_nil slug
    then err (value_error "Workspace Name produces an invalid slug")
    else if is_one_of slug reserved_workspace_slugs
    then err (value_error "The Workspace Name is reserved")
    else ok tt
