-- ===== src/Edge/WebSocket/Tests.antt =====
-- services/edge/src/websocket.ts: runs of a relay, and the theorems at inputs.
use sproutboat.Base.{◌≡◌, refl, true, false, none, some, List, [], ◌∷◌, ◌++◌, map}
use sproutboat.Base.Codes.{Text, codes, text_eq, text_eq_inst, ascii_lower}
use sproutboat.Base.Split.{onto_first, split, is_blank, trim_start, trim_end, trim}
use sproutboat.Base.Bag
use sproutboat.Base.Dict
use sproutboat.Base.Dict.{Dict}
use sproutboat.Edge.WebSocket.{
  is_web_socket_upgrade, nonempty, offered_protocols, dropped_request_headers, upstream_headers,
  sendable_close_code, Message, text, Relay, new_relay, upstream_message, upstream_gone,
  upstream_close, upstream_error, client_open, client_message, client_close, sprout_sent, opened,
  client_left, Reach, here, next,
}
use sproutboat.Edge.WebSocket.Relaying.{Delivers, Reach-Delivers}
use sproutboat.Edge.WebSocket.Closing.{Closes, Reach-Closes}

socket : Unit {0}
unfolding is_web_socket_upgrade nonempty offered_protocols dropped_request_headers upstream_headers
    sendable_close_code upstream_message upstream_gone upstream_close upstream_error client_open
    client_message client_close onto_first split is_blank trim_start trim_end trim text_eq
    ascii_lower Bag.has Dict.get Dict.filter
socket = tt

abbrev handshake : Dict Text Text
handshake =
    (codes "upgrade", codes "WebSocket")
    ∷ (codes "connection", codes "keep-alive, Upgrade")
    ∷ (codes "sec-websocket-protocol", codes "a, b,,")
    ∷ (codes "cookie", codes "s=1")
    ∷ []

handshake_tests :
    (is_web_socket_upgrade (map ascii_lower) (record { is_get = true; headers = handshake }) ≡ true)
    × (offered_protocols (record { is_get = true; headers = handshake })
        ≡ codes "a" ∷ codes "b" ∷ [])
    × (upstream_headers handshake ≡ (codes "cookie", codes "s=1") ∷ [])
    × (sendable_close_code 1006 ≡ none)
unfolding socket
handshake_tests = (refl, refl, refl, refl)

handshake-Unique : Dict.Unique handshake
unfolding socket
handshake-Unique = (refl, (refl, (refl, (refl, tt))))

abbrev greeted : Relay
greeted = client_open (upstream_message (text (codes "hi")) new_relay)

abbrev left : Relay
left = client_close 1001 (upstream_message (text (codes "you")) greeted)

greeted-client : greeted.client ≡ true
unfolding socket
greeted-client = refl

both_open :
    ((upstream_message (text (codes "you")) greeted).client ≡ true) × (greeted.upstream_open ≡ true)
unfolding socket
both_open = (refl, refl)

first_state :
    ((upstream_message (text (codes "hi")) new_relay).client ≡ false)
    × ((upstream_message (text (codes "hi")) new_relay).upstream_closes ≡ [])
unfolding socket
first_state = (refl, refl)

left_tests :
    (left.to_client ≡ text (codes "hi") ∷ text (codes "you") ∷ [])
    × (left.upstream_closes ≡ some 1001 ∷ [])
    × (left.client_closes ≡ [])
unfolding socket
left_tests = (refl, refl, refl)

abbrev said : List Message
said = ([] ++ text (codes "hi") ∷ []) ++ text (codes "you") ∷ []

path_left : Reach left said
path_left =
    next
      (next
        (next (next here (sprout_sent (text (codes "hi")) refl))
          (opened first_state.0 first_state.1))
        (sprout_sent (text (codes "you")) both_open.1))
      (client_left 1001 both_open.0)

Reach-Delivers_example : Delivers left said
Reach-Delivers_example = Reach-Delivers path_left

Reach-Closes_example : Closes left
Reach-Closes_example = Reach-Closes path_left
