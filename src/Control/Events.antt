-- ===== src/Control/Events.antt =====
-- apps/control/src/events.ts: the history of events, its pruning and its pages. The table is the
-- list of its rows by descending id. Times are milliseconds.
mod Tests
pub mod Paging
pub mod Pruning
use sproutboat.Base.{
  ℕ, zero, suc, ◌+◌, ◌-◌, ◌*◌, ◌%◌, min, max, Bool, true, false, ◌&&◌, ◌||◌, not, Option, none,
  some, List, [], ◌∷◌, ◌++◌, map, any, length, ltb, leb, ◌==◌, if◌then◌else◌, nat_eq,
}
use sproutboat.Base.Codes.{Text, text_eq, text_eq_inst}
use sproutboat.Base.Split.{split, trim}
use sproutboat.Base.Dict.{Dict}
use sproutboat.Control.EventTypes.{
  TypeFilter, filter_matches, parse_type_filter, EventValue, take_text, scrub,
}
use sproutboat.Control.Webhooks.{ActivityEvent, Store}
use sproutboat.Control.Webhooks.Queue.{limit, enqueue_deliveries}

pub record EventRow : Type 0 where
  pub id : ℕ
  pub ts : ℕ
  pub owner_id : Text
  pub project : Option Text
  pub name : Text
  pub actor : Option Text
  pub summary : Text
  pub payload : Dict Text EventValue

unfoldable pub keep_rows : (EventRow → Bool) → List EventRow → List EventRow
keep_rows p [] = []
keep_rows p (row ∷ rows) = let rest = keep_rows p rows in if p row then row ∷ rest else rest

-- `SELECT id FROM events ORDER BY id DESC LIMIT 1 OFFSET n`
unfoldable pub id_at : ℕ → List EventRow → Option ℕ
id_at n [] = none
id_at zero (row ∷ rows) = some row.id
id_at (suc n) (row ∷ rows) = id_at n rows

-- `id <= NULL` holds of no row.
unfoldable pub is_beyond : Option ℕ → EventRow → Bool
is_beyond none row = false
is_beyond (some last) row = leb row.id last

unfoldable pub prune_events : ℕ → ℕ → List EventRow → List EventRow
unfolding keep_rows id_at is_beyond
prune_events cutoff max_rows rows =
    let young = keep_rows (λ row. not (ltb row.ts cutoff)) rows in
    keep_rows (λ row. not (is_beyond (id_at max_rows young) row)) young

pub record NewEvent : Type 0 where
  pub owner_id : Text
  pub project : Option Text
  pub name : Text
  pub actor : Option Text
  pub summary : Text
  pub payload : Dict Text EventValue
  pub webhook_id : Option Text

-- The module's variables, its table, and the store that webhooks.ts works on.
pub record History : Type 0 where
  pub rows : List EventRow
  pub last_id : ℕ
  pub inserts : ℕ
  pub pruned_path : Option Text
  pub store : Store

abbrev pub event_row : ℕ → ℕ → NewEvent → EventRow
event_row id clock input = record {
  id = id;
  ts = clock;
  owner_id = input.owner_id;
  project = input.project;
  name = input.name;
  actor = input.actor;
  summary = take_text 300 input.summary;
  payload = scrub input.name input.payload;
}

unfoldable pub same_path : Option Text → Text → Bool
same_path none path = false
same_path (some pruned) path = text_eq pruned path

-- The table as webhooks.ts reads it.
unfoldable pub activity : List EventRow → Dict ℕ ActivityEvent
activity [] = []
activity (row ∷ rows) =
    (row.id, record { ts = row.ts; owner_id = row.owner_id; name = row.name }) ∷ activity rows

-- `recordEvent`; the cutoff is the clock less the days kept.
unfoldable pub record_event :
    (Text → Text) → Text → ℕ → ℕ → ℕ → NewEvent → History → History × EventRow
unfolding prune_events same_path activity
record_event fresh path clock cutoff max_rows input h =
    let id = h.last_id + 1 in
    let row = event_row id clock input in
    let added = row ∷ h.rows in
    let prunes = not (same_path h.pruned_path path) || (h.inserts + 1) % 100 == 0 in
    let rows = if prunes then prune_events cutoff max_rows added else added in
    (
      record {
        rows = rows;
        last_id = id;
        inserts = h.inserts + 1;
        pruned_path = if prunes then some path else h.pruned_path;
        store =
            enqueue_deliveries fresh id
              (record { ts = row.ts; owner_id = row.owner_id; name = row.name }) input.webhook_id
              (record (h.store) { events = activity rows });
      },
      row,
    )

pub record EventQuery : Type 0 where
  pub owner_id : Text
  pub every : Bool
  pub project : Option Text
  pub types : List TypeFilter
  pub since : Option ℕ
  pub until : Option ℕ
  pub before : Option ℕ
  pub size : ℕ

unfoldable pub of_project : Option Text → Option Text → Bool
of_project none actual = true
of_project (some wanted) none = false
of_project (some wanted) (some actual) = text_eq actual wanted

unfoldable pub of_types : List TypeFilter → Text → Bool
of_types [] name = true
of_types (f ∷ fs) name = any (filter_matches name) (f ∷ fs)

-- A condition that is left out when its argument is.
abbrev pub holds_of : Option ℕ → (ℕ → Bool) → Bool
holds_of none test = true
holds_of (some n) test = test n

unfoldable pub selects : EventQuery → EventRow → Bool
unfolding of_project of_types
selects q row =
    (q.every || text_eq row.owner_id q.owner_id)
    && of_project q.project row.project
    && of_types q.types row.name
    && holds_of q.since (λ since. leb since row.ts)
    && holds_of q.until (λ until. leb row.ts until)
    && holds_of q.before (λ before. ltb row.id before)

unfoldable pub last_id_of : List EventRow → Option ℕ
last_id_of [] = none
last_id_of (row ∷ []) = some row.id
last_id_of (row ∷ next ∷ rows) = last_id_of (next ∷ rows)

-- The page, and `nextBefore`.
unfoldable pub list_events : EventQuery → List EventRow → List EventRow × Option ℕ
unfolding selects last_id_of keep_rows limit
list_events q table =
    let size = min (max 1 q.size) 200 in
    let rows = limit (suc size) (keep_rows (selects q) table) in
    let page = limit size rows in (page, if ltb size (length rows) then last_id_of page else none)

pub data TypeList : Type 0 where
  filters : List TypeFilter → TypeList
  invalid : Text → TypeList

unfoldable pub add_filter : TypeFilter → TypeList → TypeList
add_filter f (filters fs) = filters (f ∷ fs)
add_filter f (invalid part) = invalid part

unfoldable pub parse_parts : List Text → TypeList
unfolding add_filter
parse_parts [] = filters []
parse_parts (part ∷ parts) =
    let rest = parse_parts parts in
    let trimmed = trim part in
    if text_eq trimmed []
    then rest
    else elim (parse_type_filter trimmed) [ none ↦ invalid trimmed | some f ↦ add_filter f rest ]

unfoldable pub parse_type_list : Text → TypeList
unfolding parse_parts
parse_type_list raw = parse_parts (split 44 raw)
