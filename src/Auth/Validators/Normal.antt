-- ===== src/Auth/Validators/Normal.antt =====
-- A validated value is valid as it is: the responses, which use the validators again, accept it.
use relays.Prelude.{ℕ, ◌≡◌, refl, sym, ap, subst, ◌∙◌, List, arith, All}
use relays.Core.Result.{ok}
use relays.Text.{Unicode, IsPython, strip, split}
use relays.Text.Words.{IsWord, split-IsWord, split-join, strip-join}
use relays.Auth.Validators.{
  normal_name, checked_user_name, validate_user_name, checked_workspace_name,
  validate_workspace_name,
}

module _ (u : Unicode) (python : IsPython u) where
  -- A normal name is normal.
  normal_name_idempotent :
      (value : List ℕ) → normal_name u (normal_name u value) ≡ normal_name u value
  unfolding normal_name
  normal_name_idempotent value =
      let ws = split u.is_space (strip u.is_space value) in
      let words : All (IsWord u.is_space) ws = split-IsWord u.is_space (strip u.is_space value) in
      rw (strip-join u.is_space 32 ws words, split-join u.is_space 32 ws python.blank words) refl

  checked_user_name_same :
      (value name : List ℕ) → checked_user_name u value ≡ ok name → value ≡ name
  unfolding checked_user_name
  checked_user_name_same value name h = ground arith

  checked_workspace_name_same :
      (value name : List ℕ) → checked_workspace_name u value ≡ ok name → value ≡ name
  unfolding checked_workspace_name
  checked_workspace_name_same value name h = ground arith

  -- A name that the validator gave back is accepted again, unchanged.
  pub validate_user_name_again :
      (value name : List ℕ)
      → validate_user_name u value ≡ ok name
      → validate_user_name u name ≡ ok name
  unfolding validate_user_name
  validate_user_name_again value name h =
      let same : normal_name u value ≡ name = checked_user_name_same (normal_name u value) name h in
      let normal : normal_name u name ≡ name =
        subst (λ n. normal_name u n ≡ n) same (normal_name_idempotent value) in
      ap (checked_user_name u) (normal ∙ sym same) ∙ h

  -- A workspace name that the validator gave back is accepted again, unchanged.
  pub validate_workspace_name_again :
      (value name : List ℕ)
      → validate_workspace_name u value ≡ ok name
      → validate_workspace_name u name ≡ ok name
  unfolding validate_workspace_name
  validate_workspace_name_again value name h =
      let same : normal_name u value ≡ name =
        checked_workspace_name_same (normal_name u value) name h in
      let normal : normal_name u name ≡ name =
        subst (λ n. normal_name u n ≡ n) same (normal_name_idempotent value) in
      ap (checked_workspace_name u) (normal ∙ sym same) ∙ h
