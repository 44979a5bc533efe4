-- ===== src/Edge/WebSocket/Relaying.antt =====
-- services/edge/src/websocket.ts: the messages from the sprout to the client.
use sproutboat.Base.{
  ℕ, ◌≡◌, sym, ap, ◌∙◌, refl, true, false, Option, List, [], ◌∷◌, ◌++◌, inl, inr, if_ind,
  Bool-cases,
}
use mathlib.Core.List.{append_assoc, append-nil}
use sproutboat.Edge.WebSocket.{
  Message, Relay, upstream_message, upstream_gone, upstream_close, upstream_error, upgrade_failed,
  client_open, client_message, client_close, Step, sprout_sent, sprout_closed, sprout_failed,
  refused, opened, client_sent, client_left, Reach, here, next,
}

-- Sent and waiting together are what was received, nothing waits while both ends are open, and a
-- relay that is closed has no open end at its sprout.
pub record Delivers (r : Relay) (received : List Message) : Type 0 where
  pub all_of : r.to_client ++ r.early ≡ received
  pub none_wait : r.client ≡ true → r.upstream_open ≡ true → r.early ≡ []
  pub shut : r.closed ≡ true → r.upstream_open ≡ false

sent-Delivers :
    (message : Message) (r : Relay) (xs : List Message)
    → r.upstream_open ≡ true
    → Delivers r xs
    → Delivers (upstream_message message r) (xs ++ message ∷ [])
unfolding upstream_message
sent-Delivers message r xs live d = elim (Bool-cases r.client) [
  | inl there ↦ rw there (
      let nothing = d.none_wait there live in
      record {
        all_of =
            ap (λ ys. (r.to_client ++ message ∷ []) ++ ys) nothing
            ∙ append-nil (r.to_client ++ message ∷ [])
            ∙ ap (λ ys. ys ++ message ∷ [])
                (sym (append-nil r.to_client)
                  ∙ ap (λ e. r.to_client ++ e) (sym nothing)
                  ∙ d.all_of);
        none_wait = λ c o. nothing;
        shut = d.shut;
      })
  | inr gone ↦ rw gone (record {
    all_of =
        sym (append_assoc r.to_client r.early (message ∷ []))
        ∙ ap (λ ys. ys ++ message ∷ []) d.all_of;
    none_wait = λ c o. absurd (cc c);
    shut = d.shut;
  })
]

gone-Delivers :
    (code : Option ℕ) (r : Relay) (xs : List Message)
    → Delivers r xs
    → Delivers (upstream_gone code r) xs
unfolding upstream_gone
gone-Delivers code r xs d =
    if_ind (λ s. Delivers s xs) r.closed _ _
      (λ _. record { all_of = d.all_of; none_wait = λ c o. absurd (cc o); shut = λ _. refl })
      (λ _. record { all_of = d.all_of; none_wait = λ c o. absurd (cc o); shut = λ _. refl })

opened-Delivers : (r : Relay) (xs : List Message) → Delivers r xs → Delivers (client_open r) xs
unfolding client_open
opened-Delivers r xs d =
    if_ind (λ s. Delivers s xs) r.closed _ _
      (λ done. record {
        all_of = d.all_of;
        none_wait = λ c o. absurd (cc (o, d.shut done));
        shut = d.shut;
      })
      (λ _. record {
        all_of = append-nil (r.to_client ++ r.early) ∙ d.all_of;
        none_wait = λ c o. refl;
        shut = d.shut;
      })

left-Delivers :
    (code : ℕ) (r : Relay) (xs : List Message) → Delivers r xs → Delivers (client_close code r) xs
unfolding client_close
left-Delivers code r xs d =
    if_ind (λ s. Delivers s xs) r.closed _ _
      (λ _. record { all_of = d.all_of; none_wait = d.none_wait; shut = d.shut })
      (λ _. record { all_of = d.all_of; none_wait = λ c o. absurd (cc o); shut = λ _. refl })

asked-Delivers :
    (message : Message) (r : Relay) (xs : List Message)
    → Delivers r xs
    → Delivers (client_message message r) xs
unfolding client_message
asked-Delivers message r xs d =
    if_ind (λ s. Delivers s xs) r.upstream_open _ r
      (λ _. record { all_of = d.all_of; none_wait = d.none_wait; shut = d.shut }) (λ _. d)

Step-Delivers :
    {r s : Relay} {xs ys : List Message} → Step r xs s ys → Delivers r xs → Delivers s ys
unfolding upstream_close upstream_error upgrade_failed
Step-Delivers {r} {s} {xs} (sprout_sent message live) d = sent-Delivers message r xs live d
Step-Delivers {r} {s} {xs} (sprout_closed code) d = gone-Delivers _ r xs d
Step-Delivers {r} {s} {xs} sprout_failed d = gone-Delivers _ r xs d
Step-Delivers {r} {s} {xs} (refused a b c) d = record {
  all_of = d.all_of;
  none_wait = λ c o. absurd (cc o);
  shut = λ _. refl;
}
Step-Delivers {r} {s} {xs} (opened a b) d = opened-Delivers r xs d
Step-Delivers {r} {s} {xs} (client_sent message a) d = asked-Delivers message r xs d
Step-Delivers {r} {s} {xs} (client_left code a) d = left-Delivers code r xs d

-- At every point of a relay's life the messages sent to the client, followed by those that wait for
-- it, are the messages that the sprout sent, in order; while both ends are open none waits.
pub Reach-Delivers : {r : Relay} {received : List Message} → Reach r received → Delivers r received
Reach-Delivers here = record { all_of = refl; none_wait = λ c o. refl; shut = λ c. absurd (cc c) }
Reach-Delivers (next reach step) = Step-Delivers step (Reach-Delivers reach)
