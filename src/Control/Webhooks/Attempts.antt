-- ===== src/Control/Webhooks/Attempts.antt =====
-- apps/control/src/webhooks.ts, `attemptDelivery`: what one attempt does to the table before it
-- waits and after.
use sproutboat.Base.{
  ℕ, ◌+◌, ◌≤◌, ◌<◌, ◌≡◌, ◌⊎◌, sym, ◌∙◌, refl, Bool, true, false, ◌&&◌, not, Option, none, some, leb,
  arith, inl, inr, if_ind, Bool-cases, Option-cases, nat_eq,
}
use sproutboat.Base.Codes.{Text, text_eq, text_eq_iff, text_eq_inst, codes}
use sproutboat.Base.Dict
use mathlib.Core.Path.{subst}
use sproutboat.Base.Dict.{Dict, get-insert, get-delete, get-filter}
use sproutboat.Control.Webhooks.{
  WebhookRow, DeliveryState, pending, delivered, failed, refused, Delivery, ActivityEvent,
}
use sproutboat.Control.Webhooks.Sending.{
  max_attempts, Outcome, was_delivered, was_refused, retry, finish, DueRow, begin_with, end_attempt,
  is_pending,
}
use sproutboat.Control.Webhooks.Valid.{RowsOk, Effect, no_Effect, delete-Effect, finish-Effect}

-- A row is gone, or as it was.
abbrev pub Stays : Text → Delivery → Dict Text Delivery → Type 0
Stays id d rows = (Dict.get id rows ≡ none) ⊎ (Dict.get id rows ≡ some d)

pub insert-Stays :
    (id j : Text) (d e : Delivery) (rows : Dict Text Delivery)
    → text_eq j id ≡ false
    → Stays id d rows
    → Stays id d (Dict.insert j e rows)
insert-Stays id j d e rows ne s = rw (get-insert j id e rows, ne) s

pub filter-Stays :
    (id : Text) (d : Delivery) (rows : Dict Text Delivery) (p : Text → Delivery → Bool)
    → Dict.Unique rows
    → Stays id d rows
    → Stays id d (Dict.filter p rows)
filter-Stays id d rows p u s = rw (get-filter id p rows u) (elim s [
  | inl gone ↦ rw gone (inl refl)
  | inr here ↦ rw here (
      if_ind (λ z. (z ≡ none) ⊎ (z ≡ some d)) (p id d) (some d) none (λ _. inr refl)
        (λ _. inl refl))
])

-- A row that stays settled is not the pending row that an attempt works on.
pub apart :
    (id j : Text) (d e : Delivery) (rows : Dict Text Delivery)
    → Dict.get j rows ≡ some e
    → is_pending e.state ≡ true
    → is_pending d.state ≡ false
    → Stays id d rows
    → text_eq j id ≡ false
apart id j d e rows at p settled s = elim (Bool-cases (text_eq j id)) [
  | inr ne ↦ ne
  | inl same ↦
      let here = subst (λ k. Dict.get k rows ≡ some e) ((text_eq_iff j id).0 same) at in
      elim s [
        | inl gone ↦ absurd (cc (gone, here))
        | inr was ↦ absurd (cc (sym was ∙ here, p, settled))
      ]
]

-- Nothing changes but at one id.
abbrev pub Off : Text → Dict Text Delivery → Dict Text Delivery → Type 0
Off id before after = (j : Text) → text_eq id j ≡ false → Dict.get j after ≡ Dict.get j before

delete-Off : (id : Text) (rows : Dict Text Delivery) → Off id rows (Dict.delete id rows)
delete-Off id rows j ne = rw (get-delete id j rows, ne) refl

finish-Off :
    (id : Text) (rows : Dict Text Delivery) (state : DeliveryState) (attempt : ℕ)
    (status : Option ℕ) (error : Option Text) (next at : Option ℕ)
    → Off id rows (finish id state attempt status error next at rows)
unfolding finish
finish-Off id rows state attempt status error next at = elim (Option-cases (Dict.get id rows)) [
  | inl e ↦ rw (e, finish) (λ j ne. refl)
  | inr (row, e) ↦ rw (e, finish) (λ j ne. rw (get-insert id j _ rows, ne) refl)
]

-- An attempt that settles the row.
settled-Effect :
    (flight : Dict Text DueRow) (rows : Dict Text Delivery) (id : Text) (state : DeliveryState)
    (attempt : ℕ) (status : Option ℕ) (error : Option Text) (at : Option ℕ)
    → is_pending state ≡ false
    → Dict.Unique rows
    → RowsOk rows
    → Dict.get id flight ≡ none
    → attempt ≤ max_attempts
    → Effect flight rows (finish id state attempt status error none at rows)
settled-Effect flight rows id state attempt status error at done u ok free few =
    finish-Effect flight rows id state attempt status error none at u ok free few
      (λ p. absurd (cc (p, done))) (λ _. refl)

module _ (decrypt : Text → Option Text) (id : Text) (due : DueRow) where
  pub begin_with-Effect :
      (flight : Dict Text DueRow) (hook : Option WebhookRow) (event : Option ActivityEvent)
      (rows : Dict Text Delivery)
      → Dict.Unique rows
      → RowsOk rows
      → Dict.get id flight ≡ none
      → due.attempt ≤ max_attempts
      → Effect flight rows (begin_with decrypt id due hook event rows).0
  unfolding begin_with is_pending
  begin_with-Effect flight none event rows u ok free few = delete-Effect flight rows id u ok
  begin_with-Effect flight (some hook) none rows u ok free few =
      settled-Effect flight rows id failed due.attempt none _ none refl u ok free few
  begin_with-Effect flight (some hook) (some event) rows u ok free few =
      if_ind {A = Dict Text Delivery × Bool} (λ z. Effect flight rows z.0)
        (not hook.enabled && not (text_eq event.name (codes "webhook.test"))) _ _
        (λ _. settled-Effect flight rows id failed due.attempt none _ none refl u ok free few)
        (λ _. elim (Option-cases (decrypt hook.secret_ciphertext)) [
          | inl e ↦
              rw e (settled-Effect flight rows id failed due.attempt none _ none refl u ok free few)
          | inr (secret, e) ↦ rw e (no_Effect flight rows u ok)
        ])

  pub begin_with-Off :
      (hook : Option WebhookRow) (event : Option ActivityEvent) (rows : Dict Text Delivery)
      → Off id rows (begin_with decrypt id due hook event rows).0
  unfolding begin_with
  begin_with-Off none event rows = delete-Off id rows
  begin_with-Off (some hook) none rows = finish-Off id rows failed due.attempt none _ none none
  begin_with-Off (some hook) (some event) rows =
      if_ind {A = Dict Text Delivery × Bool} (λ z. Off id rows z.0)
        (not hook.enabled && not (text_eq event.name (codes "webhook.test"))) _ _
        (λ _. finish-Off id rows failed due.attempt none _ none none)
        (λ _. elim (Option-cases (decrypt hook.secret_ciphertext)) [
          | inl n ↦ rw n (finish-Off id rows failed due.attempt none _ none none)
          | inr (secret, n) ↦ rw n (λ j ne. refl)
        ])

-- Sending leaves the table alone.
pub begin_with_sends :
    (decrypt : Text → Option Text) (id : Text) (due : DueRow) (hook : Option WebhookRow)
    (event : Option ActivityEvent) (rows : Dict Text Delivery)
    → (begin_with decrypt id due hook event rows).1 ≡ true
    → (begin_with decrypt id due hook event rows).0 ≡ rows
unfolding begin_with
begin_with_sends decrypt id due none event rows = λ h. absurd (cc h)
begin_with_sends decrypt id due (some hook) none rows = λ h. absurd (cc h)
begin_with_sends decrypt id due (some hook) (some event) rows =
    if_ind {A = Dict Text Delivery × Bool} (λ z. z.1 ≡ true → z.0 ≡ rows)
      (not hook.enabled && not (text_eq event.name (codes "webhook.test"))) _ _
      (λ _ h. absurd (cc h))
      (λ _. elim (Option-cases (decrypt hook.secret_ciphertext)) [
        | inl n ↦ rw n (λ h. absurd (cc h))
        | inr (secret, n) ↦ rw n (λ h. refl)
      ])

pub end_attempt-Effect :
    (flight : Dict Text DueRow) (id : Text) (due : DueRow) (clock : ℕ) (outcome : Outcome)
    (rows : Dict Text Delivery)
    → Dict.Unique rows
    → RowsOk rows
    → Dict.get id flight ≡ none
    → due.attempt < max_attempts
    → Effect flight rows (end_attempt id due clock outcome rows)
unfolding end_attempt is_pending
end_attempt-Effect flight id due clock (was_delivered status) rows u ok free few =
    settled-Effect flight rows id delivered (due.attempt + 1) _ _ _ refl u ok free (omega arith)
end_attempt-Effect flight id due clock (was_refused status error) rows u ok free few =
    settled-Effect flight rows id refused (due.attempt + 1) _ _ _ refl u ok free (omega arith)
end_attempt-Effect flight id due clock (retry status error) rows u ok free few =
    if_ind (λ z. Effect flight rows z) (leb max_attempts (due.attempt + 1)) _ _
      (λ _.
        settled-Effect flight rows id failed (due.attempt + 1) _ _ _ refl u ok free (omega arith))
      (λ more.
        finish-Effect flight rows id pending (due.attempt + 1) _ _ _ _ u ok free (omega arith)
          (λ _. (ground arith, λ e. cc e)) (λ e. absurd (cc e)))

pub end_attempt-Off :
    (id : Text) (due : DueRow) (clock : ℕ) (outcome : Outcome) (rows : Dict Text Delivery)
    → Off id rows (end_attempt id due clock outcome rows)
unfolding end_attempt
end_attempt-Off id due clock (was_delivered status) rows =
    finish-Off id rows delivered (due.attempt + 1) _ _ _ _
end_attempt-Off id due clock (was_refused status error) rows =
    finish-Off id rows refused (due.attempt + 1) _ _ _ _
end_attempt-Off id due clock (retry status error) rows =
    if_ind (λ z. Off id rows z) (leb max_attempts (due.attempt + 1)) _ _
      (λ _. finish-Off id rows failed (due.attempt + 1) _ _ _ _)
      (λ _. finish-Off id rows pending (due.attempt + 1) _ _ _ _)

pub Off-Stays :
    (id j : Text) (d : Delivery) (before after : Dict Text Delivery)
    → Off id before after
    → text_eq id j ≡ false
    → Stays j d before
    → Stays j d after
Off-Stays id j d before after off ne s = rw (off j ne) s

finish_absent :
    (id : Text) (rows : Dict Text Delivery) (state : DeliveryState) (attempt : ℕ)
    (status : Option ℕ) (error : Option Text) (next at : Option ℕ)
    → Dict.get id rows ≡ none
    → finish id state attempt status error next at rows ≡ rows
unfolding finish
finish_absent id rows state attempt status error next at e = rw (e, finish) refl

-- The answer to an attempt whose row is gone changes nothing.
pub end_attempt_absent :
    (id : Text) (due : DueRow) (clock : ℕ) (outcome : Outcome) (rows : Dict Text Delivery)
    → Dict.get id rows ≡ none
    → end_attempt id due clock outcome rows ≡ rows
unfolding end_attempt
end_attempt_absent id due clock (was_delivered status) rows e =
    finish_absent id rows delivered _ _ _ _ _ e
end_attempt_absent id due clock (was_refused status error) rows e =
    finish_absent id rows refused _ _ _ _ _ e
end_attempt_absent id due clock (retry status error) rows e =
    if_ind (λ z. z ≡ rows) (leb max_attempts (due.attempt + 1)) _ _
      (λ _. finish_absent id rows failed (due.attempt + 1) _ _ _ _ e)
      (λ _. finish_absent id rows pending (due.attempt + 1) _ _ _ _ e)
