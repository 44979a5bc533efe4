-- ===== src/Edge/WebSocket/Handshake.antt =====
-- services/edge/src/websocket.ts: what of the client's handshake reaches the sprout.
use sproutboat.Base.{◌≡◌, ◌∙◌, refl, Bool, true, false, not, Option, none, some, if◌then◌else◌}
use sproutboat.Base.Codes.{Text, text_eq_inst}
use sproutboat.Base.Bag
use sproutboat.Base.Dict
use sproutboat.Base.Dict.{Dict, get-filter}
use sproutboat.Edge.WebSocket.{dropped_request_headers, upstream_headers}

passing-not : (b : Bool) (o : Option Text) → Dict.passing (λ _. not b) o ≡ (if b then none else o)
passing-not true none = refl
passing-not true (some v) = refl
passing-not false none = refl
passing-not false (some v) = refl

-- Every header of the client reaches the sprout unchanged, but none of its handshake, for headers
-- that have no name twice.
pub get-upstream_headers :
    (name : Text) (forwarded : Dict Text Text)
    → Dict.Unique forwarded
    → Dict.get name (upstream_headers forwarded)
      ≡ (if Bag.has name dropped_request_headers then none else Dict.get name forwarded)
unfolding upstream_headers
get-upstream_headers name forwarded u =
    get-filter name (λ header _. not (Bag.has header dropped_request_headers)) forwarded u
    ∙ passing-not (Bag.has name dropped_request_headers) (Dict.get name forwarded)
