-- ===== src/Control/Artifact/Tests.antt =====
-- apps/control/src/artifact.ts: runs of the readers, and the theorem at an input.
use sproutboat.Base.{◌≡◌, refl, none, some, [], ◌∷◌, length}
use sproutboat.Base.Codes.{Text, codes, text_eq, text_eq_inst}
use sproutboat.Base.Dict
use sproutboat.Base.Json.{
  Json, Fields, no_items, item, no_fields, field, string, natural, array, object, as_object,
  as_array, as_string, at_key, items, fields,
}
use sproutboat.Control.Artifact.{
  kind_of, is_some, is_str, all_str, is_str_array, all_values, is_str_map, is_durable_object,
  all_durable, is_do_array, is_kind, is_resource_entry, is_resource_map, not_strings, bad_resources,
  not_an_object, issue_at, name_issues, entry_issues, bindings_errors, ref_of, refs_of,
  resource_bindings_of, set_var, vars_from, vars_of, texts, names, durable_object, durables,
  durable_objects_of, bindings_of,
}
use sproutboat.Control.Artifact.Whole.{IsWhole, bindings_of-IsWhole}

artifacts : Unit {0}
unfolding kind_of is_some is_str all_str is_str_array all_values is_str_map is_durable_object
    all_durable is_do_array is_kind is_resource_entry is_resource_map issue_at name_issues
    entry_issues bindings_errors ref_of refs_of resource_bindings_of set_var vars_from vars_of texts
    names durable_object durables durable_objects_of bindings_of as_object as_array as_string at_key
    items fields Dict.get Dict.insert text_eq
artifacts = tt

abbrev store_entry : Text → Json
store_entry kind =
    object (field (codes "kind") (string kind) (field (codes "id") (string (codes "7")) no_fields))

abbrev with_kind : Text → Fields
with_kind kind =
    field (codes "kv") (array (item (string (codes "A")) (item (string (codes "B")) no_items))) (
      field (codes "vars")
        (object (
          field (codes "X") (string (codes "1"))
            (field (codes "__proto__") (string (codes "2")) no_fields)))
        (field (codes "resources") (object (field (codes "A") (store_entry kind) no_fields))
          no_fields))

abbrev kv_file : Fields
kv_file = with_kind (codes "kv")

file_tests :
    (bindings_errors none ≡ not_an_object ∷ [])
    × (bindings_errors (some (object (field (codes "d1") (natural 1) no_fields)))
        ≡ not_strings (codes "d1") ∷ [])
    × (bindings_errors (some (object (with_kind (codes "disk")))) ≡ bad_resources ∷ [])
    × ((bindings_of (some (object kv_file))).kv ≡ codes "A" ∷ codes "B" ∷ [])
    × ((bindings_of (some (object kv_file))).vars ≡ (codes "X", codes "1") ∷ [])
    × (length (bindings_of (some (object kv_file))).resources ≡ 1)
unfolding artifacts
file_tests = (refl, refl, refl, refl, refl, refl)

no_issues : bindings_errors (some (object kv_file)) ≡ []
unfolding artifacts
no_issues = refl

bindings_of-IsWhole_example : IsWhole (fields kv_file) (bindings_of (some (object kv_file)))
bindings_of-IsWhole_example = bindings_of-IsWhole kv_file no_issues
