-- ===== src/Notification/Provider/Registry.antt =====
-- app/modules/notifications/providers/email/registry.py: one instance per provider, made at the
-- first request for it.
use relays.Prelude.{Option, none, some}
use relays.Notification.Model.{EmailNotificationProviders}
use relays.Notification.Provider.Fake.{FakeProvider}

-- `self._providers`: whether the MailRelay provider is there (it has no state of its own that the
-- code changes), and the fake provider with its state.
pub data MailRelayProvider : Type 0 where
  mailrelay_provider : MailRelayProvider

pub record EmailProviderRegistry : Type 0 where
  pub mailrelay : Option MailRelayProvider
  pub fake : Option FakeProvider

pub data EmailProvider : Type 0 where
  mailrelay_email : MailRelayProvider → EmailProvider
  fake_email : FakeProvider → EmailProvider

abbrev pub no_providers : EmailProviderRegistry
no_providers = record { mailrelay = none; fake = none }

-- The instance, and the registry that holds it from now on.
unfoldable pub get :
    EmailNotificationProviders → EmailProviderRegistry → EmailProvider × EmailProviderRegistry
get EmailNotificationProviders.mailrelay registry = elim registry.mailrelay [
  | some provider ↦ (mailrelay_email provider, registry)
  | none ↦
      (mailrelay_email mailrelay_provider, record registry { mailrelay = some mailrelay_provider })
]
get EmailNotificationProviders.fake registry = elim registry.fake [
  | some provider ↦ (fake_email provider, registry)
  | none ↦
      let fresh : FakeProvider = record { notification = none } in
      (fake_email fresh, record registry { fake = some fresh })
]
