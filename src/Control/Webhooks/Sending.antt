-- ===== src/Control/Webhooks/Sending.antt =====
-- apps/control/src/webhooks.ts, `deliverDue` and what it calls, cut at the one place where an
-- attempt waits: for the egress service. What happens before it is `begin_attempt`, what follows
-- is `end_attempt`.
use sproutboat.Base.{
  ℕ, ◌+◌, nat_eq, Bool, true, false, ◌&&◌, not, Option, none, some, [], ◌∷◌, ◌++◌, leb, ltb,
  if◌then◌else◌,
}
use sproutboat.Base.Codes.{Text, codes, text_eq, text_eq_inst}
use sproutboat.Base.Dict
use sproutboat.Base.Dict.{Dict}
use sproutboat.Control.Webhooks.{
  WebhookRow, DeliveryState, pending, delivered, failed, refused, Delivery, ActivityEvent, Store,
}
use sproutboat.Control.Webhooks.Queue.{limit}

-- RETRY_DELAYS_MS, from the number of attempts made.
abbrev pub retry_delay : ℕ → ℕ
retry_delay attempt =
    if leb attempt 1
    then 30000
    else if leb attempt 2
    then 120000
    else if leb attempt 3
    then 600000
    else 3600000

abbrev pub max_attempts : ℕ
max_attempts = 5

-- What came back from the egress service.
pub data Answer : Type 0 where
  unconfigured : Answer
  threw : Text → Answer
  egress_error : ℕ → Text → Answer
  response : ℕ → Answer

pub data Outcome : Type 0 where
  was_delivered : ℕ → Outcome
  was_refused : ℕ → Text → Outcome
  retry : Option ℕ → Text → Outcome

-- The status in decimal is the runtime's.
unfoldable pub send : (ℕ → Text) → Answer → Outcome
send decimal unconfigured = retry none (codes "egress not configured")
send decimal (threw message) = retry none message
send decimal (egress_error status []) = was_refused status (codes "refused by the egress service")
send decimal (egress_error status (c ∷ message)) = was_refused status (c ∷ message)
send decimal (response status) =
    if leb 200 status && ltb status 300
    then was_delivered status
    else retry (some status) (codes "receiver responded " ++ decimal status)

unfoldable pub finish :
    Text
    → DeliveryState
    → ℕ
    → Option ℕ
    → Option Text
    → Option ℕ
    → Option ℕ
    → Dict Text Delivery
    → Dict Text Delivery
finish id state attempt status error next at rows = elim (Dict.get id rows) [
  | none ↦ rows
  | some row ↦
      Dict.insert id
        (record row {
          state = state;
          attempt = attempt;
          http_status = status;
          error = error;
          next_attempt_at = next;
          delivered_at = at;
        })
        rows
]

pub record DueRow : Type 0 where
  pub webhook_id : Text
  pub event_id : ℕ
  pub attempt : ℕ

-- The rows, and whether the attempt goes on to send.
unfoldable pub begin_with :
    (Text → Option Text)
    → Text
    → DueRow
    → Option WebhookRow
    → Option ActivityEvent
    → Dict Text Delivery
    → Dict Text Delivery × Bool
unfolding finish
begin_with decrypt id due none event rows = (Dict.delete id rows, false)
begin_with decrypt id due (some hook) none rows = (
  finish id failed due.attempt none (some (codes "event no longer retained")) none none rows,
  false,
)
begin_with decrypt id due (some hook) (some event) rows =
    if not hook.enabled && not (text_eq event.name (codes "webhook.test"))
    then (finish id failed due.attempt none (some (codes "webhook disabled")) none none rows, false)
    else elim (decrypt hook.secret_ciphertext) [
      | none ↦ (
        finish id failed due.attempt none (some (codes "webhook secret could not be decrypted"))
            none none rows,
        false,
      )
      | some secret ↦ (rows, true)
    ]

unfoldable pub begin_attempt :
    (Text → Option Text) → Text → DueRow → Store → Dict Text Delivery → Dict Text Delivery × Bool
unfolding begin_with
begin_attempt decrypt id due db rows =
    begin_with decrypt id due (Dict.get due.webhook_id db.webhooks)
      (Dict.get due.event_id db.events) rows

unfoldable pub end_attempt : Text → DueRow → ℕ → Outcome → Dict Text Delivery → Dict Text Delivery
unfolding finish
end_attempt id due clock (was_delivered status) rows =
    finish id delivered (due.attempt + 1) (some status) none none (some clock) rows
end_attempt id due clock (was_refused status error) rows =
    finish id refused (due.attempt + 1) (some status) (some error) none none rows
end_attempt id due clock (retry status error) rows =
    if leb max_attempts (due.attempt + 1)
    then finish id failed (due.attempt + 1) status (some error) none none rows
    else finish id pending (due.attempt + 1) status (some error)
        (some (clock + retry_delay (due.attempt + 1))) none rows

unfoldable pub is_pending : DeliveryState → Bool
is_pending pending = true
is_pending _ = false

unfoldable pub due_by : ℕ → Option ℕ → Bool
due_by clock none = false
due_by clock (some at) = leb at clock

unfoldable pub is_due : ℕ → Delivery → Bool
unfolding is_pending due_by
is_due clock row = is_pending row.state && due_by clock row.next_attempt_at

unfoldable pub not_later : Option ℕ → Option ℕ → Bool
not_later none _ = true
not_later (some a) none = false
not_later (some a) (some b) = leb a b

-- ORDER BY next_attempt_at, rowid
unfoldable pub put_soonest : Text → Delivery → Dict Text Delivery → Dict Text Delivery
unfolding not_later
put_soonest id row [] = (id, row) ∷ []
put_soonest id row ((j, other) ∷ rows) =
    let later = put_soonest id row rows in
    if not_later other.next_attempt_at row.next_attempt_at
    then (j, other) ∷ later
    else (id, row) ∷ (j, other) ∷ rows

unfoldable pub soonest_first : Dict Text Delivery → Dict Text Delivery → Dict Text Delivery
unfolding put_soonest
soonest_first sorted [] = sorted
soonest_first sorted ((id, row) ∷ rows) = soonest_first (put_soonest id row sorted) rows

-- `inFlight`, each id with the row that its attempt works on.
pub record Worker : Type 0 where
  pub db : Store
  pub in_flight : Dict Text DueRow

unfoldable pub due_rows : ℕ → ℕ → Worker → Dict Text Delivery
unfolding is_due soonest_first limit
due_rows clock n w =
    Dict.filter (λ id _. not (Dict.has id w.in_flight))
      (limit n (soonest_first [] (Dict.filter (λ _ row. is_due clock row) w.db.deliveries)))

abbrev pub due_row : Delivery → DueRow
due_row row = record { webhook_id = row.webhook_id; event_id = row.event_id; attempt = row.attempt }

-- Each due row's attempt runs until it waits; one that does not wait leaves `inFlight`.
unfoldable pub begin_all : (Text → Option Text) → Dict Text Delivery → Worker → Worker
unfolding begin_attempt
begin_all decrypt [] w = w
begin_all decrypt ((id, row) ∷ due) w =
    let (rows, sends) = begin_attempt decrypt id (due_row row) w.db w.db.deliveries in
    begin_all decrypt due (record w {
      db = record (w.db) { deliveries = rows };
      in_flight = if sends then Dict.insert id (due_row row) w.in_flight else w.in_flight;
    })

-- `deliverDue` up to where it waits.
unfoldable pub deliver_due : (Text → Option Text) → ℕ → ℕ → Worker → Worker
unfolding due_rows begin_all
deliver_due decrypt clock n w = begin_all decrypt (due_rows clock n w) w

-- The egress service answered the attempt for a row, which began at `clock`.
unfoldable pub answered : (ℕ → Text) → Text → ℕ → Answer → Worker → Worker
unfolding send end_attempt
answered decimal id clock answer w = elim (Dict.get id w.in_flight) [
  | none ↦ w
  | some due ↦ record {
    db = record (w.db) {
      deliveries = end_attempt id due clock (send decimal answer) w.db.deliveries;
    };
    in_flight = Dict.delete id w.in_flight;
  }
]
