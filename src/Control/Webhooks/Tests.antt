-- ===== src/Control/Webhooks/Tests.antt =====
-- apps/control/src/webhooks.ts: runs of the queue, and the theorems at inputs.
use sproutboat.Base.{ℕ, ◌≡◌, refl, false, none, some, Option, [], ◌∷◌, length, nat_eq}
use sproutboat.Base.Codes.{Text, codes, text_eq, text_eq_inst}
use sproutboat.Base.Bag
use sproutboat.Base.Dict
use sproutboat.Base.Dict.{Dict}
use sproutboat.Control.EventTypes.{type_matches, parse_stored_filters}
use sproutboat.Control.Webhooks.{
  json, pending, delivered, Delivery, ActivityEvent, Store, put_oldest, by_creation, list_webhooks,
  owned, get_webhook, create_webhook, patched, update_webhook, delete_webhook,
}
use sproutboat.Control.Webhooks.Queue.{
  put_newest, newest_first, limit, of_webhook, newest_ids, prune_deliveries, targets, enqueue_all,
  is_some, enqueue_deliveries, list_deliveries,
}
use sproutboat.Control.Webhooks.Sending.{
  response, send, finish, begin_with, begin_attempt, end_attempt, is_pending, due_by, is_due,
  not_later, put_soonest, soonest_first, Worker, due_rows, begin_all, deliver_due, answered,
}
use sproutboat.Control.Webhooks.Valid.{IsValid}
use sproutboat.Control.Webhooks.Attempts.{Stays}
use sproutboat.Control.Webhooks.Reach.{
  Reach, here, next, created, recorded, enqueued, ticked, replied, no_worker, Reach-IsValid,
  Step-Stays,
}
use sproutboat.Control.Webhooks.Retries.{fail_next, fail_all}

queue : Unit {0}
unfolding put_oldest by_creation list_webhooks owned get_webhook create_webhook patched
    update_webhook delete_webhook put_newest newest_first limit of_webhook newest_ids
    prune_deliveries targets enqueue_all is_some enqueue_deliveries list_deliveries send finish
    begin_with begin_attempt end_attempt is_pending due_by is_due not_later put_soonest
    soonest_first due_rows begin_all deliver_due answered Dict.get Dict.has Dict.insert Dict.delete
    Dict.filter Bag.has text_eq type_matches parse_stored_filters fail_next fail_all
queue = tt

abbrev hook_id : Text
hook_id = codes "h"

abbrev delivery_id : Text
delivery_id = codes "d"

abbrev happened : ActivityEvent
happened = record { ts = 1000; owner_id = codes "alice"; name = codes "secret.set" }

abbrev registered : Store
registered =
    create_webhook hook_id (codes "alice") (codes "https://a.test/") [] json (codes "x") 5
      (record { webhooks = []; deliveries = []; events = (7, happened) ∷ [] })

abbrev waiting_row : Delivery
waiting_row = record {
  webhook_id = hook_id;
  event_id = 7;
  attempt = 0;
  state = pending;
  http_status = none;
  error = none;
  next_attempt_at = some 1000;
  created_at = 1000;
  delivered_at = none;
}

abbrev queued_once : Store
queued_once = enqueue_deliveries (λ hook. delivery_id) 7 happened none registered

queued-deliveries : queued_once.deliveries ≡ (delivery_id, waiting_row) ∷ []
unfolding queue
queued-deliveries = refl

abbrev decrypted : Text → Option Text
decrypted s = some s

abbrev no_decimal : ℕ → Text
no_decimal n = []

abbrev sending : Worker
sending = deliver_due decrypted 1000 20 (record { db = queued_once; in_flight = [] })

abbrev sent : Worker
sent = answered no_decimal delivery_id 1000 (response 204) sending

sent-deliveries :
    sent.db.deliveries
    ≡ (
      delivery_id,
      record waiting_row {
        attempt = 1;
        state = delivered;
        http_status = some 204;
        next_attempt_at = none;
        delivered_at = some 1000;
      },
    )
      ∷ []
unfolding queue
sent-deliveries = refl

retry_tests :
    (Dict.get delivery_id
        (answered no_decimal delivery_id 1000 (response 500) sending).db.deliveries
      ≡ some (record waiting_row {
        attempt = 1;
        http_status = some 500;
        error = some (codes "receiver responded ");
        next_attempt_at = some 31000;
      }))
    × (length (list_deliveries hook_id 0 queued_once) ≡ 1)
    × ((delete_webhook (codes "alice") hook_id queued_once).0.deliveries ≡ [])
unfolding queue
retry_tests = (refl, refl, refl)

abbrev ready : Worker
ready = record { db = registered; in_flight = [] }

unused :
    (hook : Text)
    → (Dict.get delivery_id ready.in_flight ≡ none)
      × (Dict.get delivery_id ready.db.deliveries ≡ none)
unfolding queue
unused hook = (refl, refl)

path_ready : Reach no_worker ready
unfolding create_webhook
path_ready =
    next (next here (recorded ((7, happened) ∷ [])))
      (created hook_id (codes "alice") (codes "https://a.test/") [] json (codes "x") 5)

path_sent : Reach no_worker sent
path_sent =
    (next
      (next (next path_ready (enqueued (λ hook. delivery_id) 7 happened none unused))
        (ticked decrypted 1000 20))
      (replied no_decimal delivery_id 1000 (response 204)))

Reach-IsValid_example : IsValid sent
Reach-IsValid_example = Reach-IsValid path_sent

abbrev done_row : Delivery
done_row = record waiting_row {
  attempt = 1;
  state = delivered;
  http_status = some 204;
  next_attempt_at = none;
  delivered_at = some 1000;
}

sent-get : Dict.get delivery_id sent.db.deliveries ≡ some done_row
unfolding queue
sent-get = refl

done_row-state : is_pending done_row.state ≡ false
unfolding queue
done_row-state = refl

Step-Stays_example : Stays delivery_id done_row (deliver_due decrypted 99000 20 sent).db.deliveries
Step-Stays_example =
    Step-Stays delivery_id done_row (ticked decrypted 99000 20) (Reach-IsValid path_sent) sent-get
      done_row-state

queued-Unique : Dict.Unique queued_once.deliveries
unfolding queue
queued-Unique = (refl, tt)
