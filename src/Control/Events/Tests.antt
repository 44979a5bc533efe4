-- ===== src/Control/Events/Tests.antt =====
-- apps/control/src/events.ts: runs of the history, and the theorems at inputs.
use sproutboat.Base.{
  ℕ, ◌≡◌, refl, false, not, none, some, List, [], ◌∷◌, ◌++◌, ltb, arith, length, nat_eq,
}
use sproutboat.Base.Codes.{codes, text_eq, text_eq_inst}
use sproutboat.Base.Split.{onto_first, split, is_blank, trim_start, trim_end, trim}
use sproutboat.Base.Bag
use sproutboat.Base.Dict
use sproutboat.Control.EventTypes.{
  exact, prefix, event_types, is_event_type, event_groups, first_part, distinct, ends_with,
  drop_last, parse_type_filter, filter_matches, take_text, scrub_keys, event_data_keys,
  allowed_keys, scrub,
}
use sproutboat.Control.Webhooks.{by_creation, list_webhooks}
use sproutboat.Control.Webhooks.Queue.{limit, targets, enqueue_all, is_some, enqueue_deliveries}
use sproutboat.Control.Events.{
  EventRow, keep_rows, id_at, is_beyond, prune_events, NewEvent, History, same_path, activity,
  record_event, EventQuery, of_project, of_types, selects, last_id_of, list_events, filters,
  invalid, add_filter, parse_parts, parse_type_list,
}
use sproutboat.Control.Events.Paging.{Descending, selected, list_events-selected}
use sproutboat.Control.Events.Pruning.{prune_events-limit}

history : Unit {0}
unfolding onto_first split is_blank trim_start trim_end trim event_types is_event_type event_groups
    first_part distinct ends_with drop_last parse_type_filter filter_matches take_text scrub_keys
    event_data_keys allowed_keys scrub by_creation list_webhooks limit targets enqueue_all is_some
    enqueue_deliveries keep_rows id_at is_beyond prune_events same_path activity record_event
    of_project of_types selects last_id_of list_events add_filter parse_parts parse_type_list
    text_eq Bag.has Bag.add Dict.get Dict.insert Dict.filter
history = tt

abbrev event_at : ℕ → ℕ → EventRow
event_at id ts = record {
  id = id;
  ts = ts;
  owner_id = codes "alice";
  project = none;
  name = codes "secret.set";
  actor = none;
  summary = [];
  payload = [];
}

abbrev three : List EventRow
three = event_at 5 30 ∷ event_at 3 20 ∷ event_at 2 10 ∷ []

abbrev page_size_two : EventQuery
page_size_two = record {
  owner_id = codes "alice";
  every = false;
  project = none;
  types = [];
  since = none;
  until = none;
  before = none;
  size = 2;
}

abbrev noted : NewEvent
noted = record {
  owner_id = codes "alice";
  project = none;
  name = codes "secret.set";
  actor = none;
  summary = codes "s";
  payload = [];
  webhook_id = none;
}

abbrev fresh_start : History
fresh_start = record {
  rows = three;
  last_id = 5;
  inserts = 0;
  pruned_path = none;
  store = record { webhooks = []; deliveries = []; events = [] };
}

history_tests :
    ((list_events page_size_two three).1 ≡ some 3)
    × (prune_events 15 1 three ≡ event_at 5 30 ∷ [])
    × (length (record_event (λ hook. hook) (codes "db") 40 25 9 noted fresh_start).0.rows ≡ 2)
    × (parse_type_list (codes "secret.set, deploy.*,")
        ≡ filters (exact (codes "secret.set") ∷ prefix (codes "deploy.") ∷ []))
    × (parse_type_list (codes "secret.set,x") ≡ invalid (codes "x"))
unfolding history
history_tests = (refl, refl, refl, refl, refl)

three-Descending : Descending three
three-Descending = ((omega arith, (omega arith, tt)), ((omega arith, tt), (tt, tt)))

list_events-selected_example :
    ((list_events page_size_two three).1 ≡ none
      → (list_events page_size_two three).0 ≡ selected page_size_two three)
    × ((b : ℕ)
        → (list_events page_size_two three).1 ≡ some b
        → (list_events page_size_two three).0
            ++ selected (record page_size_two { before = some b }) three
          ≡ selected page_size_two three)
list_events-selected_example = list_events-selected page_size_two three three-Descending

prune_events-limit_example :
    prune_events 15 1 three ≡ limit 1 (keep_rows (λ row. not (ltb row.ts 15)) three)
prune_events-limit_example = prune_events-limit 15 1 three three-Descending
