-- ===== src/Auth/Queries.antt =====
-- app/modules/auth/db and app/modules/workspaces/db, under the constraints of app/infra/db/schemas.
-- `now` is the instant of `now()` in the transaction, `id` a drawn UUID. Rows that a foreign key refers
-- to are never deleted.
pub mod Otp
pub mod Sessions
pub mod Accounts
pub mod Contexts
unfoldable pub use relays.Auth.Queries.Otp.{
  create_registration_otp, get_registration_otp_by_email, consume_registration_otp,
  delete_registration_otp, create_login_otp, get_login_otp_by_user_id, consume_login_otp,
  delete_login_otp,
}
pub use relays.Auth.Queries.Otp.{
  registration_otp_check, same_registration_otp, otp_of_email, open_otp_of_email, login_otp_check,
  same_login_otp, otp_of_user, open_otp_of_user,
}
unfoldable pub use relays.Auth.Queries.Sessions.{
  create_session, get_session_by_refresh_token_hash, get_session_by_id,
  rotate_session_refresh_token, revoke_session, revoke_all_user_sessions,
}
pub use relays.Auth.Queries.Sessions.{
  session_check, same_session, open_session_of_hash, open_session_of_id, rotated_row, revoked_row,
}
unfoldable pub use relays.Auth.Queries.Accounts.{
  get_user_by_id, get_user_by_email, create_user, update_user_name, create_workspace,
  update_workspace_name, get_workspace_by_id, get_workspace_by_slug, create_workspace_membership,
  get_workspace_member,
}
pub use relays.Auth.Queries.Accounts.{same_membership}
unfoldable pub use relays.Auth.Queries.Contexts.{get_workspace_context, get_current_user_context}
pub use relays.Auth.Queries.Contexts.{WorkspaceContext, CurrentUserContext}
