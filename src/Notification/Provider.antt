-- ===== src/Notification/Provider.antt =====
-- app/modules/notifications/providers/email: the fake provider, the MailRelay provider with its
-- client, and the registry that hands them out.
pub mod Fake
pub mod MailRelay
pub mod Registry
