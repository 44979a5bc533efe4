-- ===== src/Edge/WebSocket.antt =====
-- services/edge/src/websocket.ts: the handshake's headers, and the relay between a client's socket
-- and its sprout's, as the events of both sockets change it. `lower` is `toLowerCase`.
mod Tests
pub mod Relaying
pub mod Closing
pub mod Handshake
use sproutboat.Base.{
  ℕ, ◌≡◌, Bool, true, false, ◌&&◌, ◌||◌, not, Option, none, some, List, [], ◌∷◌, ◌++◌, map, any,
  leb, ◌==◌, if◌then◌else◌,
}
use sproutboat.Base.Codes.{Text, codes, text_eq, text_eq_inst}
use sproutboat.Base.Split.{split, trim}
use sproutboat.Base.Bag
use sproutboat.Base.Dict
use sproutboat.Base.Dict.{Dict}

-- Header names are in lower case.
pub record Upgrade : Type 0 where
  pub is_get : Bool
  pub headers : Dict Text Text

abbrev pub text_or_empty : Option Text → Text
text_or_empty none = []
text_or_empty (some s) = s

unfoldable pub is_web_socket_upgrade : (Text → Text) → Upgrade → Bool
is_web_socket_upgrade lower request =
    if not request.is_get
    then false
    else (let upgrade = lower (text_or_empty (Dict.get (codes "upgrade") request.headers)) in
        let connection = lower (text_or_empty (Dict.get (codes "connection") request.headers)) in
        text_eq upgrade (codes "websocket")
        && any (λ part. text_eq (trim part) (codes "upgrade")) (split 44 connection))

unfoldable pub nonempty : List Text → List Text
nonempty [] = []
nonempty ([] ∷ parts) = nonempty parts
nonempty ((c ∷ s) ∷ parts) = (c ∷ s) ∷ nonempty parts

unfoldable pub offered_protocols : Upgrade → List Text
unfolding nonempty
offered_protocols request = nonempty (
    map trim (split 44 (text_or_empty (Dict.get (codes "sec-websocket-protocol") request.headers))))

unfoldable pub dropped_request_headers : List Text
dropped_request_headers =
    codes "connection"
    ∷ codes "upgrade"
    ∷ codes "sec-websocket-key"
    ∷ codes "sec-websocket-version"
    ∷ codes "sec-websocket-extensions"
    ∷ codes "sec-websocket-protocol"
    ∷ codes "content-length"
    ∷ codes "transfer-encoding"
    ∷ []

unfoldable pub upstream_headers : Dict Text Text → Dict Text Text
unfolding dropped_request_headers
upstream_headers forwarded =
    Dict.filter (λ name _. not (Bag.has name dropped_request_headers)) forwarded

unfoldable pub sendable_close_code : ℕ → Option ℕ
sendable_close_code code =
    if code == 1000
      || leb 1001 code && leb code 1003
      || leb 1007 code && leb code 1014
      || leb 3000 code && leb code 4999
    then some code
    else none

pub data Message : Type 0 where
  text : Text → Message
  binary : List ℕ → Message

-- `RelayData`, whether the sprout's end is open, and what was sent and closed on each socket: a
-- close has its code, or none.
pub record Relay : Type 0 where
  pub upstream_open : Bool
  pub early : List Message
  pub client : Bool
  pub closed : Bool
  pub keep_alive : Bool
  pub to_client : List Message
  pub to_upstream : List Message
  pub client_closes : List (Option ℕ)
  pub upstream_closes : List (Option ℕ)

-- The relay when the sprout has accepted.
abbrev pub new_relay : Relay
new_relay = record {
  upstream_open = true;
  early = [];
  client = false;
  closed = false;
  keep_alive = true;
  to_client = [];
  to_upstream = [];
  client_closes = [];
  upstream_closes = [];
}

unfoldable pub upstream_message : Message → Relay → Relay
upstream_message message r =
    if r.client
    then record r { to_client = r.to_client ++ message ∷ [] }
    else record r { early = r.early ++ message ∷ [] }

-- The sprout's end closed or failed: the client, if it is there, is closed with a code.
unfoldable pub upstream_gone : Option ℕ → Relay → Relay
upstream_gone code r =
    if r.closed then record r { upstream_open = false; keep_alive = false } else record r {
      upstream_open = false;
      keep_alive = false;
      closed = true;
      client_closes = if r.client then r.client_closes ++ code ∷ [] else r.client_closes;
    }

unfoldable pub upstream_close : ℕ → Relay → Relay
unfolding sendable_close_code upstream_gone
upstream_close code r = upstream_gone (sendable_close_code code) r

unfoldable pub upstream_error : Relay → Relay
unfolding upstream_gone
upstream_error r = upstream_gone (some 1011) r

-- `server.upgrade` refused the client.
unfoldable pub upgrade_failed : Relay → Relay
upgrade_failed r = record r {
  closed = true;
  keep_alive = false;
  upstream_open = false;
  upstream_closes = r.upstream_closes ++ none ∷ [];
}

unfoldable pub client_open : Relay → Relay
client_open r =
    if r.closed
    then record r { client = true; client_closes = r.client_closes ++ some 1011 ∷ [] }
    else record r { client = true; to_client = r.to_client ++ r.early; early = [] }

unfoldable pub client_message : Message → Relay → Relay
client_message message r =
    if r.upstream_open then record r { to_upstream = r.to_upstream ++ message ∷ [] } else r

unfoldable pub client_close : ℕ → Relay → Relay
unfolding sendable_close_code
client_close code r = if r.closed then record r { keep_alive = false } else record r {
  keep_alive = false;
  closed = true;
  upstream_open = false;
  upstream_closes =
      if r.upstream_open
      then r.upstream_closes ++ sendable_close_code code ∷ []
      else r.upstream_closes;
}

-- What happens to a relay, with what the sprout has sent so far. The upgrade succeeds or fails
-- once, the client opens once, and a socket that closed delivers nothing more.
pub data Step (r : Relay) (received : List Message) : Relay → List Message → Type 0 where
  sprout_sent :
      (message : Message)
      → r.upstream_open ≡ true
      → Step r received (upstream_message message r) (received ++ message ∷ [])
  sprout_closed : (code : ℕ) → Step r received (upstream_close code r) received
  sprout_failed : Step r received (upstream_error r) received
  refused :
      r.client ≡ false
      → r.upstream_closes ≡ []
      → r.closed ≡ false
      → Step r received (upgrade_failed r) received
  opened : r.client ≡ false → r.upstream_closes ≡ [] → Step r received (client_open r) received
  client_sent :
      (message : Message) → r.client ≡ true → Step r received (client_message message r) received
  client_left : (code : ℕ) → r.client ≡ true → Step r received (client_close code r) received

pub data Reach : Relay → List Message → Type 0 where
  here : Reach new_relay []
  next : {r s : Relay} {xs ys : List Message} → Reach r xs → Step r xs s ys → Reach s ys
