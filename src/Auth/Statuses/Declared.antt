-- ===== src/Auth/Statuses/Declared.antt =====
-- Each route answers with a status that it declares.
use relays.Prelude.{ℕ, List}
use relays.Core.Raises.{Raises}
use relays.Auth.Registration
use relays.Auth.Statuses.{Route, declared_statuses}

abbrev codes : Route → List ℕ
codes = declared_statuses
