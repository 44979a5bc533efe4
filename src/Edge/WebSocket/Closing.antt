-- ===== src/Edge/WebSocket/Closing.antt =====
-- services/edge/src/websocket.ts: the closes of the two sockets.
use sproutboat.Base.{
  ℕ, ◌+◌, ◌≤◌, ◌≡◌, sym, ap, ◌∙◌, refl, false, ◌&&◌, ◌||◌, leb, ◌==◌, Option, none, some, List, [],
  ◌∷◌, ◌++◌, length, length-append, inl, inr, if_ind, Bool-cases, All, All-append, arith,
}
use sproutboat.Edge.WebSocket.{
  Message, Relay, sendable_close_code, upstream_message, upstream_gone, upstream_close,
  upstream_error, upgrade_failed, client_open, client_message, client_close, Step, sprout_sent,
  sprout_closed, sprout_failed, refused, opened, client_sent, client_left, Reach, here, next,
}

-- A code that a server may send in a close frame; 1005, 1006 and 1015 are reserved.
pub Sendable : Option ℕ → Type 0
Sendable none = Unit
Sendable (some code) =
    (1000 ≤ code) × (code ≤ 4999) × ((code ≡ 1005) → ⊥) × ((code ≡ 1006) → ⊥) × ((code ≡ 1015) → ⊥)

sendable_close_code-Sendable : (code : ℕ) → Sendable (sendable_close_code code)
unfolding sendable_close_code Sendable
sendable_close_code-Sendable code =
    if_ind Sendable
      (code == 1000
        || leb 1001 code && leb code 1003
        || leb 1007 code && leb code 1014
        || leb 3000 code && leb code 4999)
      (some code) none (λ yes. ground arith) (λ _. tt)

-- At most one close in all while the relay is open or after, and every code may be sent.
pub record Closes (r : Relay) : Type 0 where
  pub at_most_once : length r.client_closes + length r.upstream_closes ≤ 1
  pub none_yet : r.closed ≡ false → length r.client_closes + length r.upstream_closes ≡ 0
  pub unopened : r.client ≡ false → length r.client_closes ≡ 0
  pub client_codes : All Sendable r.client_closes
  pub upstream_codes : All Sendable r.upstream_closes

added-All :
    (code : Option ℕ) (codes : List (Option ℕ))
    → Sendable code
    → All Sendable codes
    → All Sendable (codes ++ code ∷ [])
added-All code codes fine all = All-append Sendable codes (code ∷ []) all (fine, tt)

gone-Closes :
    (code : Option ℕ) (r : Relay) → Sendable code → Closes r → Closes (upstream_gone code r)
unfolding upstream_gone
gone-Closes code r fine c = elim (Bool-cases r.closed) [
  | inl done ↦ rw done (record {
    at_most_once = c.at_most_once;
    none_yet = λ e. absurd (cc e);
    unopened = c.unopened;
    client_codes = c.client_codes;
    upstream_codes = c.upstream_codes;
  })
  | inr still ↦ rw still (elim (Bool-cases r.client) [
    | inl there ↦ rw there (record {
      at_most_once = omega (arith, c.none_yet still, length-append r.client_closes (code ∷ []));
      none_yet = λ e. absurd (cc e);
      unopened = λ e. absurd (cc e);
      client_codes = added-All code r.client_closes fine c.client_codes;
      upstream_codes = c.upstream_codes;
    })
    | inr away ↦ rw away (record {
      at_most_once = c.at_most_once;
      none_yet = λ e. absurd (cc e);
      unopened = λ _. c.unopened away;
      client_codes = c.client_codes;
      upstream_codes = c.upstream_codes;
    })
  ])
]

left-Closes : (code : ℕ) (r : Relay) → Closes r → Closes (client_close code r)
unfolding client_close
left-Closes code r c = elim (Bool-cases r.closed) [
  | inl done ↦ rw done (record {
    at_most_once = c.at_most_once;
    none_yet = λ e. absurd (cc e);
    unopened = c.unopened;
    client_codes = c.client_codes;
    upstream_codes = c.upstream_codes;
  })
  | inr still ↦ rw still (elim (Bool-cases r.upstream_open) [
    | inl live ↦ rw live (record {
      at_most_once = omega (
        arith,
        c.none_yet still,
        length-append r.upstream_closes (sendable_close_code code ∷ []),
      );
      none_yet = λ e. absurd (cc e);
      unopened = c.unopened;
      client_codes = c.client_codes;
      upstream_codes =
          added-All _ r.upstream_closes (sendable_close_code-Sendable code) c.upstream_codes;
    })
    | inr dead ↦ rw dead (record {
      at_most_once = c.at_most_once;
      none_yet = λ e. absurd (cc e);
      unopened = c.unopened;
      client_codes = c.client_codes;
      upstream_codes = c.upstream_codes;
    })
  ])
]

opened-Closes :
    (r : Relay) → r.client ≡ false → r.upstream_closes ≡ [] → Closes r → Closes (client_open r)
unfolding client_open Sendable
opened-Closes r away unclosed c = elim (Bool-cases r.closed) [
  | inl done ↦ rw done (record {
    at_most_once = omega (
      arith,
      c.unopened away,
      ap length unclosed,
      length-append r.client_closes (some 1011 ∷ []),
    );
    none_yet = λ e. absurd (cc e);
    unopened = λ e. absurd (cc e);
    client_codes = added-All (some 1011) r.client_closes (ground arith) c.client_codes;
    upstream_codes = c.upstream_codes;
  })
  | inr still ↦ rw still (record {
    at_most_once = c.at_most_once;
    none_yet = λ _. c.none_yet still;
    unopened = λ e. absurd (cc e);
    client_codes = c.client_codes;
    upstream_codes = c.upstream_codes;
  })
]

same-Closes :
    (r s : Relay)
    → s.client_closes ≡ r.client_closes
    → s.upstream_closes ≡ r.upstream_closes
    → s.closed ≡ r.closed
    → s.client ≡ r.client
    → Closes r
    → Closes s
same-Closes r s a b done there c = record {
  at_most_once = rw (a, b) c.at_most_once;
  none_yet = λ e. rw (a, b) (c.none_yet (sym done ∙ e));
  unopened = λ e. rw a (c.unopened (sym there ∙ e));
  client_codes = rw a c.client_codes;
  upstream_codes = rw b c.upstream_codes;
}

Step-Closes : {r s : Relay} {xs ys : List Message} → Step r xs s ys → Closes r → Closes s
unfolding upstream_close upstream_error upgrade_failed upstream_message client_message Sendable
Step-Closes {r} (sprout_sent message live) c =
    if_ind (λ s. Closes s) r.client _ _ (λ _. same-Closes r _ refl refl refl refl c)
      (λ _. same-Closes r _ refl refl refl refl c)
Step-Closes {r} (sprout_closed code) c = gone-Closes _ r (sendable_close_code-Sendable code) c
Step-Closes {r} sprout_failed c = gone-Closes (some 1011) r (ground arith) c
Step-Closes {r} (refused away unclosed still) c = record {
  at_most_once = omega (arith, c.none_yet still, length-append r.upstream_closes (none ∷ []));
  none_yet = λ e. absurd (cc e);
  unopened = c.unopened;
  client_codes = c.client_codes;
  upstream_codes = All-append _ r.upstream_closes (none ∷ []) c.upstream_codes (tt, tt);
}
Step-Closes {r} (opened away unclosed) c = opened-Closes r away unclosed c
Step-Closes {r} (client_sent message there) c =
    if_ind (λ s. Closes s) r.upstream_open _ r (λ _. same-Closes r _ refl refl refl refl c) (λ _. c)
Step-Closes {r} (client_left code there) c = left-Closes code r c

-- In the whole life of a relay the edge closes one of the two sockets at most, once, and only with
-- a code that a close frame may carry.
pub Reach-Closes : {r : Relay} {received : List Message} → Reach r received → Closes r
Reach-Closes here = record {
  at_most_once = omega arith;
  none_yet = λ e. refl;
  unopened = λ e. refl;
  client_codes = tt;
  upstream_codes = tt;
}
Reach-Closes (next reach step) = Step-Closes step (Reach-Closes reach)
