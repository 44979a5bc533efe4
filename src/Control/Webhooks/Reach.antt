-- ===== src/Control/Webhooks/Reach.antt =====
-- apps/control/src/webhooks.ts: whatever happens to the queue, in whatever order.
use sproutboat.Base.{
  ℕ, ◌≡◌, refl, false, ◌&&◌, not, Option, none, some, List, [], ◌∷◌, arith, inl, inr, if_ind,
  Bool-cases, Option-cases,
}
use sproutboat.Base.Codes.{Text, codes, text_eq, text_eq_iff, text_eq_inst}
use sproutboat.Base.Dict
use sproutboat.Base.Dict.{Dict, get-delete, get-delete_self}
use sproutboat.Control.EventTypes.{system_owner}
use sproutboat.Control.Webhooks.{
  WebhookRow, WebhookFormat, WebhookPatch, Delivery, ActivityEvent, Store, get_webhook,
  create_webhook, update_webhook, delete_webhook,
}
use sproutboat.Control.Webhooks.Queue.{
  queued, prune_deliveries, targets, enqueue_all, is_some, enqueue_deliveries,
}
use sproutboat.Control.Webhooks.Sending.{
  Answer, Outcome, send, DueRow, end_attempt, is_pending, Worker, deliver_due, answered,
}
use sproutboat.Control.Webhooks.Valid.{
  RowsOk, Linked, IsValid, Effect, Effect-Linked, Effect-Effect, no_Effect, insert-Effect,
  filter-Effect,
}
use sproutboat.Control.Webhooks.Attempts.{
  Stays, insert-Stays, filter-Stays, apart, Off-Stays, end_attempt-Effect, end_attempt-Off,
  end_attempt_absent,
}
use sproutboat.Control.Webhooks.Ticks.{deliver_due-Advance}

abbrev pub with_db : Worker → Store → Worker
with_db w db = record w { db = db }

-- What can happen to a worker. The random ids of new deliveries are none that is in use.
pub data Step (w : Worker) : Worker → Type 0 where
  created :
      (id owner url : Text) (types : List Text) (format : WebhookFormat) (secret : Text) (clock : ℕ)
      → Step w (with_db w (create_webhook id owner url types format secret clock w.db))
  updated :
      (owner id : Text) (patch : WebhookPatch) (clock : ℕ)
      → Step w (with_db w (update_webhook owner id patch clock w.db).0)
  deleted : (owner id : Text) → Step w (with_db w (delete_webhook owner id w.db).0)
  recorded :
      (events : Dict ℕ ActivityEvent) → Step w (with_db w (record (w.db) { events = events }))
  enqueued :
      (fresh : Text → Text) (event_id : ℕ) (event : ActivityEvent) (only : Option Text)
      → ((hook : Text)
          → (Dict.get (fresh hook) w.in_flight ≡ none)
            × (Dict.get (fresh hook) w.db.deliveries ≡ none))
      → Step w (with_db w (enqueue_deliveries fresh event_id event only w.db))
  ticked : (decrypt : Text → Option Text) (clock n : ℕ) → Step w (deliver_due decrypt clock n w)
  replied :
      (decimal : ℕ → Text) (id : Text) (clock : ℕ) (answer : Answer)
      → Step w (answered decimal id clock answer w)

pub data Reach (w : Worker) : Worker → Type 0 where
  here : Reach w w
  next : {x y : Worker} → Reach w x → Step x y → Reach w y

-- A change of the store that is an effect on the deliveries keeps the worker valid.
Effect-IsValid :
    (w : Worker) (db : Store)
    → IsValid w
    → Effect w.in_flight w.db.deliveries db.deliveries
    → IsValid (with_db w db)
Effect-IsValid w db v e = record {
  unique = e.unique;
  rows = e.rows;
  linked = Effect-Linked w.in_flight w.db.deliveries db.deliveries e v.linked;
}

module _ (fresh : Text → Text) (event_id : ℕ) (event : ActivityEvent)
    (flight : Dict Text DueRow) where
  enqueue_all-Effect :
      (hooks : Dict Text WebhookRow) (rows : Dict Text Delivery)
      → ((hook : Text) → Dict.get (fresh hook) flight ≡ none)
      → Dict.Unique rows
      → RowsOk rows
      → Effect flight rows (enqueue_all fresh event_id event hooks rows)
  unfolding enqueue_all prune_deliveries is_pending
  enqueue_all-Effect [] rows idle u ok = no_Effect flight rows u ok
  enqueue_all-Effect ((hook, _) ∷ hooks) rows idle u ok =
      let added =
        insert-Effect flight rows (fresh hook) (queued hook event_id event) u ok
          (record {
            few = omega arith;
            left = λ p. omega arith;
            timed = λ p e. cc e;
            settled = λ p. absurd (cc p);
          })
          (idle hook) in
      let pruned =
        filter-Effect flight (Dict.insert (fresh hook) (queued hook event_id event) rows) _
          added.unique added.rows in
      Effect-Effect flight rows _ _ added (
        Effect-Effect flight _ _ _ pruned
          (enqueue_all-Effect hooks _ idle pruned.unique pruned.rows))

  enqueue_all-Stays :
      (j : Text) (d : Delivery) (hooks : Dict Text WebhookRow) (rows : Dict Text Delivery)
      → ((hook : Text) → text_eq (fresh hook) j ≡ false)
      → Dict.Unique rows
      → Stays j d rows
      → Stays j d (enqueue_all fresh event_id event hooks rows)
  unfolding enqueue_all prune_deliveries
  enqueue_all-Stays j d [] rows ne u s = s
  enqueue_all-Stays j d ((hook, _) ∷ hooks) rows ne u s =
      let v = Dict.insert-Unique (fresh hook) (queued hook event_id event) rows u in
      enqueue_all-Stays j d hooks _ ne (Dict.filter-Unique _ _ v) (
        filter-Stays j d _ _ v
          (insert-Stays j (fresh hook) d (queued hook event_id event) rows (ne hook) s))

enqueue-Effect :
    (fresh : Text → Text) (event_id : ℕ) (event : ActivityEvent) (only : Option Text) (w : Worker)
    → ((hook : Text) → Dict.get (fresh hook) w.in_flight ≡ none)
    → IsValid w
    → Effect w.in_flight w.db.deliveries
        (enqueue_deliveries fresh event_id event only w.db).deliveries
unfolding enqueue_deliveries
enqueue-Effect fresh event_id event only w idle v =
    let P = λ (db : Store). Effect w.in_flight w.db.deliveries db.deliveries in
    if_ind P (text_eq event.owner_id system_owner) w.db _ (λ _. no_Effect _ _ v.unique v.rows)
      (λ _.
        if_ind P (text_eq event.name (codes "webhook.test") && not (is_some only)) w.db _
          (λ _. no_Effect _ _ v.unique v.rows)
          (λ _.
            enqueue_all-Effect fresh event_id event w.in_flight (targets event_id event only w.db)
              w.db.deliveries idle v.unique v.rows))

-- The answer to an attempt in flight.
answered-Effect :
    (id : Text) (due : DueRow) (clock : ℕ) (answer : Outcome) (w : Worker)
    → IsValid w
    → Dict.get id w.in_flight ≡ some due
    → Effect
        (Dict.delete id w.in_flight)
        w.db.deliveries
        (end_attempt id due clock answer w.db.deliveries)
answered-Effect id due clock answer w v e = elim (Option-cases (Dict.get id w.db.deliveries)) [
  | inl gone ↦
      rw (end_attempt_absent id due clock answer w.db.deliveries gone)
        (no_Effect _ _ v.unique v.rows)
  | inr (row, at) ↦
      let (p, same) = v.linked id due e row at in
      end_attempt-Effect _ id due clock answer w.db.deliveries v.unique v.rows
        (get-delete_self id w.in_flight) (omega (arith, (v.rows id row at).left p, same))
]

delete-Linked :
    (id : Text) (flight : Dict Text DueRow) (rows : Dict Text Delivery)
    → Linked flight rows
    → Linked (Dict.delete id flight) rows
delete-Linked id flight rows l j a h = elim (Bool-cases (text_eq id j)) [
  | inl same ↦ absurd (cc (rw (get-delete id j flight, same) at h))
  | inr ne ↦ l j a (rw (get-delete id j flight, ne) at h)
]

answered-IsValid :
    (decimal : ℕ → Text) (id : Text) (clock : ℕ) (answer : Answer) (w : Worker)
    → IsValid w
    → IsValid (answered decimal id clock answer w)
unfolding answered
answered-IsValid decimal id clock answer w v = elim (Option-cases (Dict.get id w.in_flight)) [
  | inl e ↦ rw (e, answered) v
  | inr (due, e) ↦
      let effect = answered-Effect id due clock (send decimal answer) w v e in
      rw (e, answered)
        (record {
          unique = effect.unique;
          rows = effect.rows;
          linked =
              Effect-Linked _ _ _ effect (delete-Linked id w.in_flight w.db.deliveries v.linked);
        })
]

answered-Stays :
    (decimal : ℕ → Text) (id : Text) (clock : ℕ) (answer : Answer) (w : Worker) (j : Text)
    (d : Delivery)
    → IsValid w
    → is_pending d.state ≡ false
    → Stays j d w.db.deliveries
    → Stays j d (answered decimal id clock answer w).db.deliveries
unfolding answered
answered-Stays decimal id clock answer w j d v settled s =
    elim (Option-cases (Dict.get id w.in_flight)) [
      | inl e ↦ rw (e, answered) s
      | inr (due, e) ↦
          rw (e, answered)
            (elim (Option-cases (Dict.get id w.db.deliveries)) [
              | inl gone ↦
                  rw (end_attempt_absent id due clock (send decimal answer) w.db.deliveries gone) s
              | inr (row, at) ↦
                  Off-Stays id j d w.db.deliveries _
                    (end_attempt-Off id due clock (send decimal answer) w.db.deliveries)
                    (apart j id d row w.db.deliveries at (v.linked id due e row at).0 settled s) s
            ])
    ]

deleted-Effect :
    (owner id : Text) (w : Worker)
    → IsValid w
    → Effect w.in_flight w.db.deliveries (delete_webhook owner id w.db).0.deliveries
unfolding delete_webhook
deleted-Effect owner id w v = elim (Option-cases (get_webhook owner id w.db)) [
  | inl e ↦ rw (e, delete_webhook) (no_Effect _ _ v.unique v.rows)
  | inr (row, e) ↦
      rw (e, delete_webhook) (filter-Effect w.in_flight w.db.deliveries _ v.unique v.rows)
]

deleted-Stays :
    (owner id : Text) (w : Worker) (j : Text) (d : Delivery)
    → IsValid w
    → Stays j d w.db.deliveries
    → Stays j d (delete_webhook owner id w.db).0.deliveries
unfolding delete_webhook
deleted-Stays owner id w j d v s = elim (Option-cases (get_webhook owner id w.db)) [
  | inl e ↦ rw (e, delete_webhook) s
  | inr (row, e) ↦ rw (e, delete_webhook) (filter-Stays j d w.db.deliveries _ v.unique s)
]

-- Changing a webhook leaves the deliveries alone.
update-deliveries :
    (owner id : Text) (patch : WebhookPatch) (clock : ℕ) (db : Store)
    → (update_webhook owner id patch clock db).0.deliveries ≡ db.deliveries
unfolding update_webhook
update-deliveries owner id patch clock db = elim (Option-cases (get_webhook owner id db)) [
  | inl e ↦ rw (e, update_webhook) refl
  | inr (row, e) ↦ rw (e, update_webhook) refl
]

pub Step-IsValid : {w x : Worker} → Step w x → IsValid w → IsValid x
unfolding create_webhook
Step-IsValid {w} (created id owner url types format secret clock) v =
    Effect-IsValid w _ v (no_Effect _ _ v.unique v.rows)
Step-IsValid {w} (updated owner id patch clock) v =
    Effect-IsValid w _ v
      (rw (update-deliveries owner id patch clock w.db) (no_Effect _ _ v.unique v.rows))
Step-IsValid {w} (deleted owner id) v = Effect-IsValid w _ v (deleted-Effect owner id w v)
Step-IsValid {w} (recorded events) v = Effect-IsValid w _ v (no_Effect _ _ v.unique v.rows)
Step-IsValid {w} (enqueued fresh event_id event only free) v =
    Effect-IsValid w _ v (enqueue-Effect fresh event_id event only w (λ hook. (free hook).0) v)
Step-IsValid {w} (ticked decrypt clock n) v = (deliver_due-Advance decrypt clock n w v).valid
Step-IsValid {w} (replied decimal id clock answer) v = answered-IsValid decimal id clock answer w v

abbrev pub no_worker : Worker
no_worker = record { db = record { webhooks = []; deliveries = []; events = [] }; in_flight = [] }

no_worker-IsValid : IsValid no_worker
unfolding Dict.get
no_worker-IsValid = record {
  unique = tt;
  rows = λ id d h. absurd (cc h);
  linked = λ id a h. absurd (cc h);
}

-- However registrations, events, ticks of the worker and answers of the egress service follow each
-- other: no delivery has more than five attempts, a pending one has an attempt left and a time for
-- it, no other has, and each attempt in flight whose delivery still has a row is that row's next
-- one, the row being pending.
pub Reach-IsValid : {w : Worker} → Reach no_worker w → IsValid w
Reach-IsValid here = no_worker-IsValid
Reach-IsValid (next r st) = Step-IsValid st (Reach-IsValid r)

enqueue-Stays :
    (fresh : Text → Text) (event_id : ℕ) (event : ActivityEvent) (only : Option Text) (w : Worker)
    (j : Text) (d : Delivery)
    → ((hook : Text) → text_eq (fresh hook) j ≡ false)
    → IsValid w
    → Stays j d w.db.deliveries
    → Stays j d (enqueue_deliveries fresh event_id event only w.db).deliveries
unfolding enqueue_deliveries
enqueue-Stays fresh event_id event only w j d ne v s =
    let P = λ (db : Store). Stays j d db.deliveries in
    if_ind P (text_eq event.owner_id system_owner) w.db _ (λ _. s)
      (λ _.
        if_ind P (text_eq event.name (codes "webhook.test") && not (is_some only)) w.db _ (λ _. s)
          (λ _.
            enqueue_all-Stays fresh event_id event w.in_flight j d
              (targets event_id event only w.db) w.db.deliveries ne v.unique s))

not_fresh :
    (j k : Text) (d : Delivery) (rows : Dict Text Delivery)
    → Dict.get j rows ≡ some d
    → Dict.get k rows ≡ none
    → text_eq k j ≡ false
not_fresh j k d rows at free = elim (Bool-cases (text_eq k j)) [
  | inl same ↦ absurd (cc (at, free, (text_eq_iff k j).0 same))
  | inr ne ↦ ne
]

-- In a valid worker, a delivery that is settled (delivered, refused or given up) is not changed
-- again: whatever happens next, its row is as it was or is removed. New deliveries have ids that
-- are not in use.
pub Step-Stays :
    {w x : Worker} (j : Text) (d : Delivery)
    → Step w x
    → IsValid w
    → Dict.get j w.db.deliveries ≡ some d
    → is_pending d.state ≡ false
    → Stays j d x.db.deliveries
unfolding create_webhook
Step-Stays {w} j d (created id owner url types format secret clock) v at settled = inr at
Step-Stays {w} j d (updated owner id patch clock) v at settled =
    rw (update-deliveries owner id patch clock w.db) (inr at)
Step-Stays {w} j d (deleted owner id) v at settled = deleted-Stays owner id w j d v (inr at)
Step-Stays {w} j d (recorded events) v at settled = inr at
Step-Stays {w} j d (enqueued fresh event_id event only free) v at settled =
    enqueue-Stays fresh event_id event only w j d
      (λ hook. not_fresh j (fresh hook) d w.db.deliveries at (free hook).1) v (inr at)
Step-Stays {w} j d (ticked decrypt clock n) v at settled =
    (deliver_due-Advance decrypt clock n w v).kept j d settled (inr at)
Step-Stays {w} j d (replied decimal id clock answer) v at settled =
    answered-Stays decimal id clock answer w j d v settled (inr at)
