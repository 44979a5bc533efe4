-- ===== src/Control/Webhooks/Queue.antt =====
-- apps/control/src/webhooks.ts, `enqueueDeliveries` and `listDeliveries`.
use sproutboat.Base.{
  ℕ, zero, suc, min, max, Bool, true, false, ◌&&◌, ◌||◌, not, Option, none, some, List, [], ◌∷◌,
  map, leb, if◌then◌else◌,
}
use sproutboat.Base.Codes.{Text, codes, text_eq, text_eq_inst}
use sproutboat.Base.Bag
use sproutboat.Base.Dict
use sproutboat.Base.Dict.{Dict}
use sproutboat.Control.EventTypes.{system_owner, type_matches, parse_stored_filters}
use sproutboat.Control.Webhooks.{WebhookRow, Delivery, pending, ActivityEvent, Store, list_webhooks}

-- ORDER BY created_at DESC, rowid DESC, for a row with a greater rowid than all others.
unfoldable pub put_newest : Text → Delivery → Dict Text Delivery → Dict Text Delivery
put_newest id row [] = (id, row) ∷ []
put_newest id row ((j, other) ∷ rows) =
    let later = put_newest id row rows in
    if leb other.created_at row.created_at
    then (id, row) ∷ (j, other) ∷ rows
    else (j, other) ∷ later

unfoldable pub newest_first : Dict Text Delivery → Dict Text Delivery → Dict Text Delivery
unfolding put_newest
newest_first sorted [] = sorted
newest_first sorted ((id, row) ∷ rows) = newest_first (put_newest id row sorted) rows

-- LIMIT
unfoldable pub limit {ℓ} : {A : Type ℓ} → ℕ → List A → List A
limit zero xs = []
limit (suc n) [] = []
limit (suc n) (x ∷ xs) = x ∷ limit n xs

unfoldable pub of_webhook : Text → Dict Text Delivery → Dict Text Delivery
of_webhook id rows = Dict.filter (λ _ row. text_eq row.webhook_id id) rows

abbrev pub keep_deliveries : ℕ
keep_deliveries = 200

unfoldable pub newest_ids : ℕ → Text → Dict Text Delivery → List Text
unfolding newest_first limit of_webhook
newest_ids n hook rows = map (λ entry. entry.0) (limit n (newest_first [] (of_webhook hook rows)))

unfoldable pub prune_deliveries : Text → Dict Text Delivery → Dict Text Delivery
unfolding newest_ids
prune_deliveries hook rows =
    let ids = newest_ids keep_deliveries hook rows in
    Dict.filter (λ id row. not (text_eq row.webhook_id hook) || Bag.has id ids) rows

abbrev pub queued : Text → ℕ → ActivityEvent → Delivery
queued hook event_id event = record {
  webhook_id = hook;
  event_id = event_id;
  attempt = 0;
  state = pending;
  http_status = none;
  error = none;
  next_attempt_at = some event.ts;
  created_at = event.ts;
  delivered_at = none;
}

unfoldable pub targets : ℕ → ActivityEvent → Option Text → Store → Dict Text WebhookRow
unfolding list_webhooks
targets event_id event only db =
    Dict.filter
      (λ id hook. elim only [
        | some target ↦ text_eq id target
        | none ↦ hook.enabled && type_matches (parse_stored_filters hook.types) event.name
      ])
      (list_webhooks event.owner_id db)

-- `fresh` gives the random id of the delivery to each webhook.
unfoldable pub enqueue_all :
    (Text → Text)
    → ℕ
    → ActivityEvent
    → Dict Text WebhookRow
    → Dict Text Delivery
    → Dict Text Delivery
unfolding prune_deliveries
enqueue_all fresh event_id event [] rows = rows
enqueue_all fresh event_id event ((hook, _) ∷ hooks) rows =
    enqueue_all fresh event_id event hooks
      (prune_deliveries hook (Dict.insert (fresh hook) (queued hook event_id event) rows))

unfoldable pub is_some : Option Text → Bool
is_some none = false
is_some (some _) = true

unfoldable pub enqueue_deliveries : (Text → Text) → ℕ → ActivityEvent → Option Text → Store → Store
unfolding targets enqueue_all is_some
enqueue_deliveries fresh event_id event only db =
    if text_eq event.owner_id system_owner
    then db
    else if text_eq event.name (codes "webhook.test") && not (is_some only)
    then db
    else record db {
      deliveries = enqueue_all fresh event_id event (targets event_id event only db) db.deliveries;
    }

-- The rows that `listDeliveries` returns, with their ids.
unfoldable pub list_deliveries : Text → ℕ → Store → Dict Text Delivery
unfolding newest_first limit of_webhook
list_deliveries hook n db =
    limit (min (max 1 n) 200) (newest_first [] (of_webhook hook db.deliveries))
