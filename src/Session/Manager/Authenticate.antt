-- ===== src/Session/Manager/Authenticate.antt =====
-- What a login does.
use game_net_core.Session.Manager.{Manager}
use game_net_core.Session.Manager.Outcome.{Outcome}
