-- ===== src/Control/CliAuthorization/Tests.antt =====
-- apps/control/src/cli-authorization.ts: runs of an authorization, and the theorem at an input.
use sproutboat.Base.{◌≡◌, refl, true, some, [], ◌∷◌}
use sproutboat.Base.Codes.{Text, codes, text_eq, text_eq_inst}
use sproutboat.Base.Dict
use sproutboat.Control.CliAuthorization.{
  active, awaits_approval, find_device, taken, create_authorization, approve_row,
  approve_authorization, claim, exchange_row, begin_exchange, key, no_key, set_issued, reopened,
  set_reopened, end_exchange, Table, still_pending, claimed, used,
}
use sproutboat.Control.CliAuthorization.World.{World}

cli : Unit {0}
unfolding active awaits_approval find_device taken create_authorization approve_row
    approve_authorization claim exchange_row begin_exchange set_issued reopened set_reopened
    end_exchange Dict.get Dict.has Dict.insert Dict.delete text_eq
cli = tt

abbrev hashed : Text → Text
hashed s = 35 ∷ s

abbrev device : Text
device = codes "0123456789abcdef0123456789abcdef"

abbrev asked : Table
asked = (create_authorization hashed 0 ((codes "AB", device) ∷ []) []).0

abbrev allowed : Table
allowed =
    (approve_authorization (some (record { id = codes "alice"; session = true })) (codes "AB") 10
      asked).0

abbrev claiming : Table
claiming = (begin_exchange hashed (some device) 20 allowed).0

abbrev done : Table
done = (end_exchange (codes "AB") 30 (key (codes "k")) claiming).0

exchange_tests :
    ((begin_exchange hashed (some device) 5 asked).1 ≡ still_pending)
    × ((begin_exchange hashed (some device) 20 allowed).1 ≡ claimed (codes "AB") (codes "alice"))
    × ((begin_exchange hashed (some device) 21 claiming).1 ≡ used)
    × ((begin_exchange hashed (some device) 40 done).1 ≡ used)
    × ((begin_exchange hashed (some device) 40 (end_exchange (codes "AB") 30 no_key claiming).0).1
        ≡ claimed (codes "AB") (codes "alice"))
unfolding cli
exchange_tests = (refl, refl, refl, refl, refl)

abbrev after_claim : World
after_claim = record {
  table = claiming;
  waiting = (codes "AB", codes "alice") ∷ [];
  keys = [];
  tokens = [];
}
