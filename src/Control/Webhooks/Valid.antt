-- ===== src/Control/Webhooks/Valid.antt =====
-- apps/control/src/webhooks.ts: the invariant of the delivery table, and the changes made to it.
use sproutboat.Base.{
  ℕ, ◌≤◌, ◌<◌, ◌≡◌, ◌≢◌, sym, ◌∙◌, Bool, true, false, Option, none, some, arith, inl, inr,
  Bool-cases, Option-cases, nat_eq,
}
use sproutboat.Base.Codes.{Text, text_eq, text_eq_iff, text_eq_inst}
use sproutboat.Base.Dict
use mathlib.Core.Path.{subst}
use sproutboat.Base.Dict.{
  Dict, get-insert, get-delete, get-filter, insert-Unique, delete-Unique, filter-Unique,
}
use sproutboat.Control.Webhooks.{DeliveryState, Delivery}
use sproutboat.Control.Webhooks.Sending.{max_attempts, finish, DueRow, is_pending, Worker}

-- A row has at most five attempts; a pending row has one left and a time for it; no other row has.
pub record RowOk (d : Delivery) : Type 0 where
  pub few : d.attempt ≤ max_attempts
  pub left : is_pending d.state ≡ true → d.attempt < max_attempts
  pub timed : is_pending d.state ≡ true → d.next_attempt_at ≢ none
  pub settled : is_pending d.state ≡ false → d.next_attempt_at ≡ none

abbrev pub RowsOk : Dict Text Delivery → Type 0
RowsOk rows = (id : Text) (d : Delivery) → Dict.get id rows ≡ some d → RowOk d

-- A row that is in flight is pending, and its attempt is the row's next one.
abbrev pub Linked : Dict Text DueRow → Dict Text Delivery → Type 0
Linked flight rows =
    (id : Text) (a : DueRow)
    → Dict.get id flight ≡ some a
    → (d : Delivery) → Dict.get id rows ≡ some d
    → (is_pending d.state ≡ true) × (d.attempt ≡ a.attempt)

pub record IsValid (w : Worker) : Type 0 where
  pub unique : Dict.Unique w.db.deliveries
  pub rows : RowsOk w.db.deliveries
  pub linked : Linked w.in_flight w.db.deliveries

-- A change that keeps rows sound, and at most removes rows that are in flight.
pub record Effect (flight : Dict Text DueRow) (before after : Dict Text Delivery) : Type 0 where
  pub unique : Dict.Unique after
  pub rows : RowsOk after
  pub quiet :
      (id : Text) (a : DueRow)
      → Dict.get id flight ≡ some a
      → (d : Delivery) → Dict.get id after ≡ some d
      → Dict.get id before ≡ some d

pub Effect-Linked :
    (flight : Dict Text DueRow) (before after : Dict Text Delivery)
    → Effect flight before after
    → Linked flight before
    → Linked flight after
Effect-Linked flight before after e l id a h d at = l id a h d (e.quiet id a h d at)

pub no_Effect :
    (flight : Dict Text DueRow) (rows : Dict Text Delivery)
    → Dict.Unique rows
    → RowsOk rows
    → Effect flight rows rows
no_Effect flight rows u ok = record { unique = u; rows = ok; quiet = λ id a h d at. at }

pub Effect-Effect :
    (flight : Dict Text DueRow) (r s t : Dict Text Delivery)
    → Effect flight r s
    → Effect flight s t
    → Effect flight r t
Effect-Effect flight r s t e f = record {
  unique = f.unique;
  rows = f.rows;
  quiet = λ id a h d at. e.quiet id a h d (f.quiet id a h d at);
}

pub insert-Effect :
    (flight : Dict Text DueRow) (rows : Dict Text Delivery) (id : Text) (d : Delivery)
    → Dict.Unique rows
    → RowsOk rows
    → RowOk d
    → Dict.get id flight ≡ none
    → Effect flight rows (Dict.insert id d rows)
insert-Effect flight rows id d u ok fine free = record {
  unique = insert-Unique id d rows u;
  rows = λ j e at. elim (Bool-cases (text_eq id j)) [
    | inl same ↦ subst RowOk (cc (rw (get-insert id j d rows, same) at at)) fine
    | inr ne ↦ ok j e (rw (get-insert id j d rows, ne) at at)
  ];
  quiet = λ j a h e at. elim (Bool-cases (text_eq id j)) [
    | inl same ↦ absurd (cc (free, h, (text_eq_iff id j).0 same))
    | inr ne ↦ rw (get-insert id j d rows, ne) at at
  ];
}

passing-some :
    (p : Delivery → Bool) (o : Option Delivery) (d : Delivery)
    → Dict.passing p o ≡ some d
    → o ≡ some d
passing-some p none d h = h
passing-some p (some e) d h = ground arith

pub filter-Effect :
    (flight : Dict Text DueRow) (rows : Dict Text Delivery) (p : Text → Delivery → Bool)
    → Dict.Unique rows
    → RowsOk rows
    → Effect flight rows (Dict.filter p rows)
filter-Effect flight rows p u ok = record {
  unique = filter-Unique p rows u;
  rows =
      λ j d at. ok j d (passing-some (p j) (Dict.get j rows) d (sym (get-filter j p rows u) ∙ at));
  quiet = λ j a h d at. passing-some (p j) (Dict.get j rows) d (sym (get-filter j p rows u) ∙ at);
}

still :
    (id j : Text) (d : Delivery) (rows : Dict Text Delivery)
    → Dict.get j (Dict.delete id rows) ≡ some d
    → Dict.get j rows ≡ some d
still id j d rows at = ground (arith, get-delete id j rows)

pub delete-Effect :
    (flight : Dict Text DueRow) (rows : Dict Text Delivery) (id : Text)
    → Dict.Unique rows
    → RowsOk rows
    → Effect flight rows (Dict.delete id rows)
delete-Effect flight rows id u ok = record {
  unique = delete-Unique id rows u;
  rows = λ j d at. ok j d (still id j d rows at);
  quiet = λ j a h d at. still id j d rows at;
}

pub finish-Effect :
    (flight : Dict Text DueRow) (rows : Dict Text Delivery) (id : Text) (state : DeliveryState)
    (attempt : ℕ) (status : Option ℕ) (error : Option Text) (next at : Option ℕ)
    → Dict.Unique rows
    → RowsOk rows
    → Dict.get id flight ≡ none
    → attempt ≤ max_attempts
    → (is_pending state ≡ true → (attempt < max_attempts) × (next ≢ none))
    → (is_pending state ≡ false → next ≡ none)
    → Effect flight rows (finish id state attempt status error next at rows)
unfolding finish
finish-Effect flight rows id state attempt status error next at u ok free few goes stops =
    elim (Option-cases (Dict.get id rows)) [
      | inl e ↦ rw (e, finish) (no_Effect flight rows u ok)
      | inr (row, e) ↦
          rw (e, finish)
            (insert-Effect flight rows id _ u ok
              (record {
                few = few;
                left = λ p. (goes p).0;
                timed = λ p. (goes p).1;
                settled = stops;
              })
              free)
    ]
