-- ===== src/Control/CliAuthorization/Once.antt =====
-- apps/control/src/cli-authorization.ts: the invariant through the end of an exchange, and every
-- sequence of requests.
use sproutboat.Base.Codes.{text_eq_inst}
use sproutboat.Base.Dict
use sproutboat.Base.Dict.{Dict, get-insert}
use sproutboat.Control.CliAuthorization.World.{World}
