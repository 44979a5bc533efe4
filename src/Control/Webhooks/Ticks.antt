-- ===== src/Control/Webhooks/Ticks.antt =====
-- apps/control/src/webhooks.ts, `deliverDue`: the rows that a tick takes, and its attempts one
-- after the other.
use sproutboat.Base.{
  ℕ, zero, suc, ◌≡◌, sym, ap, ◌∙◌, refl, Bool, true, false, not, Option, none, some, [], ◌∷◌,
  if◌then◌else◌, arith, inl, inr, if_ind, Bool-cases, nat_eq, All,
}
use mathlib.Core.Path.{subst}
use sproutboat.Base.Codes.{Text, text_eq, text_eq_iff, text_eq_self, text_eq_inst}
use sproutboat.Base.Dict
use sproutboat.Base.Dict.{Dict, get-insert, get-filter, filter-Unique}
use sproutboat.Control.Webhooks.{Delivery}
use sproutboat.Control.Webhooks.Queue.{limit}
use sproutboat.Control.Webhooks.Sending.{
  DueRow, begin_attempt, is_pending, is_due, not_later, put_soonest, soonest_first, Worker,
  due_rows, due_row, begin_all, deliver_due,
}
use sproutboat.Control.Webhooks.Valid.{Linked, IsValid, Effect, Effect-Linked}
use sproutboat.Control.Webhooks.Attempts.{
  begin_with-Effect, begin_with-Off, begin_with_sends, Stays, apart, Off, Off-Stays,
}

-- A predicate on ids and rows, and that a list of rows names no id twice.
abbrev Each : (Text × Delivery → Type 0) → Dict Text Delivery → Type 0
Each P rows = All P rows × Dict.Unique rows

apart_keys :
    (id j : Text) (w : Delivery) (rows : Dict Text Delivery)
    → Dict.get id ((j, w) ∷ rows) ≡ none
    → text_eq j id ≡ false
unfolding Dict.get
apart_keys id j w rows h = ground arith

ne_sym : (s t : Text) → text_eq s t ≡ false → text_eq t s ≡ false
ne_sym s t h = ground (arith, text_eq_iff s t, text_eq_iff t s)

other_key :
    (id k : Text) (v : Delivery) (rows : Dict Text Delivery)
    → Dict.get id rows ≡ none
    → Dict.get k rows ≡ some v
    → text_eq id k ≡ false
other_key id k v rows free at = elim (Bool-cases (text_eq id k)) [
  | inl same ↦ absurd (cc (free, at, (text_eq_iff id k).0 same))
  | inr ne ↦ ne
]

module _ (P : Text × Delivery → Type 0) where
  filter-All :
      (p : Text → Delivery → Bool) (rows : Dict Text Delivery)
      → All P rows
      → All P (Dict.filter p rows)
  unfolding Dict.filter
  filter-All p [] a = tt
  filter-All p ((j, w) ∷ rows) (q, a) =
      if_ind (λ z. All P z) (p j w) ((j, w) ∷ Dict.filter p rows) (Dict.filter p rows)
        (λ _. (q, filter-All p rows a)) (λ _. filter-All p rows a)

  filter-Each :
      (p : Text → Delivery → Bool) (rows : Dict Text Delivery)
      → Each P rows
      → Each P (Dict.filter p rows)
  filter-Each p rows (a, u) = (filter-All p rows a, filter-Unique p rows u)

  limit-none :
      (k : Text) (n : ℕ) (rows : Dict Text Delivery)
      → Dict.get k rows ≡ none
      → Dict.get k (limit n rows) ≡ none
  unfolding limit Dict.get
  limit-none k zero rows h = refl
  limit-none k (suc n) [] h = refl
  limit-none k (suc n) ((j, w) ∷ rows) h = ground (arith, limit-none k n rows)

  limit-Each : (n : ℕ) (rows : Dict Text Delivery) → Each P rows → Each P (limit n rows)
  unfolding limit
  limit-Each zero rows e = (tt, tt)
  limit-Each (suc n) [] e = (tt, tt)
  limit-Each (suc n) ((j, w) ∷ rows) ((p, a), (h, u)) =
      let (b, v) = limit-Each n rows (a, u) in ((p, b), (limit-none j n rows h, v))

  put_soonest-get :
      (id k : Text) (row : Delivery) (rows : Dict Text Delivery)
      → text_eq id k ≡ false
      → Dict.get k rows ≡ none
      → Dict.get k (put_soonest id row rows) ≡ none
  unfolding put_soonest Dict.get
  put_soonest-get id k row [] ne h = ground arith
  put_soonest-get id k row ((j, w) ∷ rows) ne h = ground (arith, put_soonest-get id k row rows ne)

  put_soonest-Each :
      (id : Text) (row : Delivery) (rows : Dict Text Delivery)
      → P (id, row)
      → Dict.get id rows ≡ none
      → Each P rows
      → Each P (put_soonest id row rows)
  unfolding put_soonest Dict.get
  put_soonest-Each id row [] p h e = ((p, tt), (refl, tt))
  put_soonest-Each id row ((j, w) ∷ rows) p h ((q, a), (free, u)) =
      let ne = apart_keys id j w rows h in
      let absent = rw ne at h in
      let (b, v) = put_soonest-Each id row rows p absent (a, u) in
      if_ind (λ z. Each P z) (not_later w.next_attempt_at row.next_attempt_at) _ _
        (λ _. ((q, b), (put_soonest-get id j row rows (ne_sym j id ne) free, v)))
        (λ _. ((p, (q, a)), (h, (free, u))))

  soonest_first-Each :
      (sorted rows : Dict Text Delivery)
      → Each P sorted
      → Each P rows
      → ((k : Text) (v : Delivery) → Dict.get k rows ≡ some v → Dict.get k sorted ≡ none)
      → Each P (soonest_first sorted rows)
  unfolding soonest_first Dict.get
  soonest_first-Each sorted [] e f apart = e
  soonest_first-Each sorted ((id, row) ∷ rows) e ((p, a), (free, u)) apart =
      soonest_first-Each (put_soonest id row sorted) rows
        (put_soonest-Each id row sorted p (apart id row (rw (text_eq_self id) refl)) e) (a, u)
        (λ k v at.
          let ne = other_key id k v rows free at in
          put_soonest-get id k row sorted ne (apart k v (rw ne at)))

filter-passed :
    (P : Text × Delivery → Type 0) (p : Text → Delivery → Bool) (rows : Dict Text Delivery)
    → All P rows
    → All (λ e. P e × (p e.0 e.1 ≡ true)) (Dict.filter p rows)
unfolding Dict.filter
filter-passed P p [] a = tt
filter-passed P p ((j, w) ∷ rows) (q, a) =
    if_ind (λ z. All (λ e. P e × (p e.0 e.1 ≡ true)) z) (p j w) ((j, w) ∷ Dict.filter p rows)
      (Dict.filter p rows) (λ yes. ((q, yes), filter-passed P p rows a))
      (λ _. filter-passed P p rows a)

All-map :
    (P Q : Text × Delivery → Type 0) (rows : Dict Text Delivery)
    → ((e : Text × Delivery) → P e → Q e)
    → All P rows
    → All Q rows
All-map P Q [] f a = tt
All-map P Q (e ∷ rows) f (p, a) = (f e p, All-map P Q rows f a)

-- A row that a tick is about to attempt: as the table has it, pending and not in flight.
Waiting : Dict Text DueRow → Dict Text Delivery → Text × Delivery → Type 0
Waiting flight rows e =
    (Dict.get e.0 rows ≡ some e.1) × (is_pending e.1.state ≡ true) × (Dict.get e.0 flight ≡ none)

waiting :
    (clock : ℕ) (w : Worker) (e : Text × Delivery)
    → ((Dict.get e.0 w.db.deliveries ≡ some e.1) × (is_due clock e.1 ≡ true))
      × (not (Dict.has e.0 w.in_flight) ≡ true)
    → Waiting w.in_flight w.db.deliveries e
unfolding Waiting is_due
waiting clock w e ((here, due), idle) =
    (here, ground arith, Dict.get-has-false e.0 w.in_flight (ground arith))

due_rows-Waiting :
    (clock n : ℕ) (w : Worker)
    → IsValid w
    → Each (Waiting w.in_flight w.db.deliveries) (due_rows clock n w)
unfolding due_rows Dict.get
due_rows-Waiting clock n w v =
    let rows = w.db.deliveries in
    let ready =
      λ (e : Text × Delivery). (Dict.get e.0 rows ≡ some e.1) × (is_due clock e.1 ≡ true) in
    let due = Dict.filter (λ _ row. is_due clock row) rows in
    let sorted =
      soonest_first-Each ready [] due (tt, tt)
        (
          filter-passed _ (λ _ row. is_due clock row) rows (Dict.Holds-self rows v.unique),
          filter-Unique _ rows v.unique,
        )
        (λ k d at. refl) in
    let (a, u) = limit-Each ready n (soonest_first [] due) sorted in
    (
      All-map _ _ _ (waiting clock w)
          (filter-passed ready (λ id _. not (Dict.has id w.in_flight)) _ a),
      filter-Unique _ _ u,
    )

-- The rest of a tick's rows still wait after one row's attempt.
still_Waiting :
    (id : Text) (flight flight2 : Dict Text DueRow) (rows rows2 rest : Dict Text Delivery)
    → Off id rows rows2
    → ((j : Text) → text_eq id j ≡ false → Dict.get j flight2 ≡ Dict.get j flight)
    → Dict.get id rest ≡ none
    → All (Waiting flight rows) rest
    → All (Waiting flight2 rows2) rest
unfolding Waiting Dict.get
still_Waiting id flight flight2 rows rows2 [] off offf free a = tt
still_Waiting id flight flight2 rows rows2 ((j, r) ∷ rest) off offf free ((here, p, idle), a) =
    let ne = apart_keys id j r rest free in
    let ne2 = ne_sym j id ne in
    (
      (off j ne2 ∙ here, p, offf j ne2 ∙ idle),
      still_Waiting id flight flight2 rows rows2 rest off offf (rw ne at free) a,
    )

-- One row's attempt, up to where it waits.
begun : (Text → Option Text) → Text → Delivery → Worker → Worker
unfolding begin_attempt
begun decrypt id row w =
    let (rows, sends) = begin_attempt decrypt id (due_row row) w.db w.db.deliveries in
    record w {
      db = record (w.db) { deliveries = rows };
      in_flight = if sends then Dict.insert id (due_row row) w.in_flight else w.in_flight;
    }

linked_row :
    (row d : Delivery) (a : DueRow)
    → some row ≡ some d
    → some (due_row row) ≡ some a
    → is_pending row.state ≡ true
    → (is_pending d.state ≡ true) × (d.attempt ≡ a.attempt)
linked_row row d a same taken p =
    let same_row : row ≡ d = cc same in
    let same_due : due_row row ≡ a = cc taken in
    (
      subst (λ r. is_pending r.state ≡ true) same_row p,
      sym (ap (λ r. r.attempt) same_row) ∙ ap (λ r. r.attempt) same_due,
    )

begun-Linked :
    (id : Text) (row : Delivery) (sends : Bool) (flight : Dict Text DueRow)
    (rows after : Dict Text Delivery)
    → Linked flight rows
    → Waiting flight rows (id, row)
    → Effect flight rows after
    → (sends ≡ true → after ≡ rows)
    → Linked (if sends then Dict.insert id (due_row row) flight else flight) after
unfolding Waiting
begun-Linked id row false flight rows after linked wait e same =
    Effect-Linked flight rows after e linked
begun-Linked id row true flight rows after linked (here, p, idle) e same =
    subst (Linked (Dict.insert id (due_row row) flight)) (sym (same refl)) (λ j a h d at.
      elim (Bool-cases (text_eq id j)) [
        | inl eq ↦
            linked_row row d a
              (sym (subst (λ k. Dict.get k rows ≡ some row) ((text_eq_iff id j).0 eq) here) ∙ at)
              (rw (get-insert id j (due_row row) flight, eq) at h) p
        | inr ne ↦ linked j a (rw (get-insert id j (due_row row) flight, ne) at h) d at
      ])

begun-IsValid :
    (decrypt : Text → Option Text) (id : Text) (row : Delivery) (w : Worker)
    → IsValid w
    → Waiting w.in_flight w.db.deliveries (id, row)
    → IsValid (begun decrypt id row w)
unfolding begun Waiting begin_attempt
begun-IsValid decrypt id row w v (here, p, idle) =
    let few = (v.rows id row here).few in
    let hook = Dict.get row.webhook_id w.db.webhooks in
    let event = Dict.get row.event_id w.db.events in
    let e =
      begin_with-Effect decrypt id (due_row row) w.in_flight hook event w.db.deliveries v.unique
        v.rows idle few in
    record {
      unique = e.unique;
      rows = e.rows;
      linked =
          begun-Linked id row _ w.in_flight w.db.deliveries _ v.linked (here, p, idle) e
            (begin_with_sends decrypt id (due_row row) hook event w.db.deliveries);
    }

begun_flight :
    (id j : Text) (sends : Bool) (due : DueRow) (flight : Dict Text DueRow)
    → text_eq id j ≡ false
    → Dict.get j (if sends then Dict.insert id due flight else flight) ≡ Dict.get j flight
begun_flight id j true due flight ne = rw (get-insert id j due flight, ne) refl
begun_flight id j false due flight ne = refl

-- A tick leaves the worker valid, and no settled row changes.
pub record Advance (before after : Worker) : Type 0 where
  pub valid : IsValid after
  pub kept :
      (j : Text) (d : Delivery)
      → is_pending d.state ≡ false
      → Stays j d before.db.deliveries
      → Stays j d after.db.deliveries

begin_all-Advance :
    (decrypt : Text → Option Text) (due : Dict Text Delivery) (w : Worker)
    → IsValid w
    → Each (Waiting w.in_flight w.db.deliveries) due
    → Advance w (begin_all decrypt due w)
unfolding begin_all begun begin_attempt Waiting
begin_all-Advance decrypt [] w v waits = record { valid = v; kept = λ j d p s. s }
begin_all-Advance decrypt ((id, row) ∷ due) w v (((here, p, idle), a), (free, u)) =
    let hook = Dict.get row.webhook_id w.db.webhooks in
    let event = Dict.get row.event_id w.db.events in
    let off = begin_with-Off decrypt id (due_row row) hook event w.db.deliveries in
    let next =
      begin_all-Advance decrypt due (begun decrypt id row w)
        (begun-IsValid decrypt id row w v (here, p, idle))
        (
          still_Waiting id w.in_flight _ w.db.deliveries _ due off
              (λ j ne. begun_flight id j _ (due_row row) w.in_flight ne) free a,
          u,
        ) in
    record {
      valid = next.valid;
      kept = λ j d settled s. next.kept j d settled (
          Off-Stays id j d w.db.deliveries _ off (apart j id d row w.db.deliveries here p settled s)
            s);
    }

pub deliver_due-Advance :
    (decrypt : Text → Option Text) (clock n : ℕ) (w : Worker)
    → IsValid w
    → Advance w (deliver_due decrypt clock n w)
unfolding deliver_due
deliver_due-Advance decrypt clock n w v =
    begin_all-Advance decrypt (due_rows clock n w) w v (due_rows-Waiting clock n w v)
