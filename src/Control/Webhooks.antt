-- ===== src/Control/Webhooks.antt =====
-- apps/control/src/webhooks.ts: the registry of webhooks, the delivery queue and its sender.
-- A table is a map from the primary key in rowid order; an ISO time is its milliseconds; a random
-- id is an argument, and so is the decryption of a secret.
mod Tests
pub mod Queue
pub mod Sending
pub mod Valid
pub mod Attempts
pub mod Ticks
pub mod Reach
pub mod Retries
use sproutboat.Base.{
  ℕ, ◌+◌, Bool, true, false, ◌&&◌, Option, none, some, List, [], ◌∷◌, ◌++◌, leb, if◌then◌else◌,
}
use sproutboat.Base.Codes.{Text, text_eq, text_eq_inst}
use sproutboat.Base.Dict
use sproutboat.Base.Dict.{Dict}

pub data WebhookFormat : Type 0 where
  json : WebhookFormat
  discord : WebhookFormat

pub record WebhookRow : Type 0 where
  pub owner_id : Text
  pub url : Text
  pub types : List Text
  pub format : WebhookFormat
  pub secret_ciphertext : Text
  pub enabled : Bool
  pub created_at : ℕ
  pub updated_at : ℕ

pub data DeliveryState : Type 0 where
  pending : DeliveryState
  delivered : DeliveryState
  failed : DeliveryState
  refused : DeliveryState

pub record Delivery : Type 0 where
  pub webhook_id : Text
  pub event_id : ℕ
  pub attempt : ℕ
  pub state : DeliveryState
  pub http_status : Option ℕ
  pub error : Option Text
  pub next_attempt_at : Option ℕ
  pub created_at : ℕ
  pub delivered_at : Option ℕ

-- What the queue reads of an event.
pub record ActivityEvent : Type 0 where
  pub ts : ℕ
  pub owner_id : Text
  pub name : Text

pub record Store : Type 0 where
  pub webhooks : Dict Text WebhookRow
  pub deliveries : Dict Text Delivery
  pub events : Dict ℕ ActivityEvent

-- ORDER BY created_at, rowid
unfoldable pub put_oldest : Text → WebhookRow → Dict Text WebhookRow → Dict Text WebhookRow
put_oldest id row [] = (id, row) ∷ []
put_oldest id row ((j, other) ∷ rows) =
    let later = put_oldest id row rows in
    if leb other.created_at row.created_at
    then (j, other) ∷ later
    else (id, row) ∷ (j, other) ∷ rows

unfoldable pub by_creation : Dict Text WebhookRow → Dict Text WebhookRow → Dict Text WebhookRow
unfolding put_oldest
by_creation sorted [] = sorted
by_creation sorted ((id, row) ∷ rows) = by_creation (put_oldest id row sorted) rows

unfoldable pub list_webhooks : Text → Store → Dict Text WebhookRow
unfolding by_creation
list_webhooks owner db =
    by_creation [] (Dict.filter (λ _ row. text_eq row.owner_id owner) db.webhooks)

unfoldable pub owned : Text → Option WebhookRow → Option WebhookRow
owned owner none = none
owned owner (some row) = if text_eq row.owner_id owner then some row else none

unfoldable pub get_webhook : Text → Text → Store → Option WebhookRow
unfolding owned
get_webhook owner id db = owned owner (Dict.get id db.webhooks)

unfoldable pub create_webhook :
    Text → Text → Text → List Text → WebhookFormat → Text → ℕ → Store → Store
create_webhook id owner url types format ciphertext clock db = record db {
  webhooks =
      Dict.insert id
        (record {
          owner_id = owner;
          url = url;
          types = types;
          format = format;
          secret_ciphertext = ciphertext;
          enabled = true;
          created_at = clock;
          updated_at = clock;
        })
        db.webhooks;
}

pub record WebhookPatch : Type 0 where
  pub url : Option Text
  pub types : Option (List Text)
  pub format : Option WebhookFormat
  pub enabled : Option Bool

-- `patch ?? current`
abbrev pub or_else {ℓ} : {A : Type ℓ} → Option A → A → A
or_else none current = current
or_else (some value) current = value

unfoldable pub patched : WebhookPatch → ℕ → WebhookRow → WebhookRow
patched patch clock current = record current {
  url = or_else patch.url current.url;
  types = or_else patch.types current.types;
  format = or_else patch.format current.format;
  enabled = or_else patch.enabled current.enabled;
  updated_at = clock;
}

unfoldable pub update_webhook : Text → Text → WebhookPatch → ℕ → Store → Store × Option WebhookRow
unfolding get_webhook patched
update_webhook owner id patch clock db = elim (get_webhook owner id db) [
  | none ↦ (db, none)
  | some current ↦
      let next = record db {
        webhooks = Dict.insert id (patched patch clock current) db.webhooks;
      } in
      (next, get_webhook owner id next)
]

unfoldable pub delete_webhook : Text → Text → Store → Store × Bool
unfolding get_webhook
delete_webhook owner id db = elim (get_webhook owner id db) [
  | none ↦ (db, false)
  | some _ ↦ (
    record db {
      deliveries =
          Dict.filter (λ _ row. if text_eq row.webhook_id id then false else true) db.deliveries;
      webhooks = Dict.delete id db.webhooks;
    },
    true,
  )
]
