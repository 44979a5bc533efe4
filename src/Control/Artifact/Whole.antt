-- ===== src/Control/Artifact/Whole.antt =====
-- apps/control/src/artifact.ts: the bindings of a file without issues.
use sproutboat.Base.{
  ◌≡◌, ◌⊎◌, ap, refl, ◌∙◌, true, false, none, some, List, [], ◌∷◌, ◌++◌, All, inl, inr,
}
use sproutboat.Base.Codes.{Text, codes, text_eq, text_eq_inst}
use sproutboat.Base.Dict
use sproutboat.Base.Dict.{Dict}
use sproutboat.Base.Json.{
  Json, Items, Fields, null, boolean, natural, number, string, array, object, as_object, as_array,
  as_string, at_key, items, fields,
}
use sproutboat.Control.Artifact.{
  is_str, all_str, is_str_array, all_values, is_str_map, all_durable, is_do_array,
  is_resource_entry, is_resource_map, not_strings, bad_assets, bad_vars, bad_do, bad_resources,
  issue_at, name_keys, name_issues, entry_issues, bindings_errors, ref_of, refs_of,
  resource_bindings_of, vars_of, ArtifactBindings, texts, names, durable_object, durables,
  durable_objects_of, bindings_of,
}
use sproutboat.Control.Artifact.Kept.{
  append_empty, issue_at-empty, Reads, all_str-Reads, all_durable-Reads, all_values-Reads,
  get-vars_from,
}

-- The list under the key, if there is one, and every string of it.
abbrev pub NamesRead : Dict Text Json → Text → List Text → Type 0
NamesRead entries key ys =
    ((Dict.get key entries ≡ none) × (ys ≡ []))
    ⊎ ((xs : Items) × (Dict.get key entries ≡ some (array xs))
        × Reads (λ x. as_string (some x)) (items xs) ys)

abbrev pub name_lists : ArtifactBindings → List (Text × List Text)
name_lists b =
    (codes "kv", b.kv)
    ∷ (codes "secrets", b.secrets)
    ∷ (codes "d1", b.d1)
    ∷ (codes "r2", b.r2)
    ∷ (codes "queues", b.queues)
    ∷ (codes "analytics", b.analytics)
    ∷ (codes "crons", b.crons)
    ∷ []

-- The bindings hold all that the entries of the file say.
pub record IsWhole (entries : Dict Text Json) (b : ArtifactBindings) : Type 0 where
  pub lists : All (λ (l : Text × List Text). NamesRead entries l.0 l.1) (name_lists b)
  pub asset_dir :
      ((Dict.get (codes "assets") entries ≡ none) × (b.assets ≡ none))
      ⊎ ((s : Text) × (Dict.get (codes "assets") entries ≡ some (string s)) × (b.assets ≡ some s))
  pub objects :
      ((Dict.get (codes "do") entries ≡ none) × (b.durable_objects ≡ []))
      ⊎ ((xs : Items) × (Dict.get (codes "do") entries ≡ some (array xs))
          × Reads durable_object (items xs) b.durable_objects)
  pub refs :
      ((Dict.get (codes "resources") entries ≡ none) × (b.resources ≡ []))
      ⊎ ((fs : Fields) × (Dict.get (codes "resources") entries ≡ some (object fs))
          × Reads (λ (e : Text × Json). ref_of e.0 e.1) (fields fs) b.resources)
  pub variables :
      (fs : Fields) (name item : Text)
      → Dict.get (codes "vars") entries ≡ some (object fs)
      → Dict.Unique (fields fs)
      → text_eq name (codes "__proto__") ≡ false
      → Dict.get name (fields fs) ≡ some (string item)
      → Dict.get name b.vars ≡ some item

is_str_array-array :
    (v : Json) → is_str_array v ≡ true → (xs : Items) × (v ≡ array xs) × (all_str (items xs) ≡ true)
unfolding is_str_array as_array
is_str_array-array null h = absurd (cc h)
is_str_array-array (boolean b) h = absurd (cc h)
is_str_array-array (natural n) h = absurd (cc h)
is_str_array-array (number n) h = absurd (cc h)
is_str_array-array (string s) h = absurd (cc h)
is_str_array-array (object fs) h = absurd (cc h)
is_str_array-array (array xs) h = (xs, refl, h)

is_do_array-array :
    (v : Json)
    → is_do_array v ≡ true
    → (xs : Items) × (v ≡ array xs) × (all_durable (items xs) ≡ true)
unfolding is_do_array as_array
is_do_array-array null h = absurd (cc h)
is_do_array-array (boolean b) h = absurd (cc h)
is_do_array-array (natural n) h = absurd (cc h)
is_do_array-array (number n) h = absurd (cc h)
is_do_array-array (string s) h = absurd (cc h)
is_do_array-array (object fs) h = absurd (cc h)
is_do_array-array (array xs) h = (xs, refl, h)

is_resource_map-object :
    (v : Json)
    → is_resource_map v ≡ true
    → (fs : Fields) × (v ≡ object fs) × (all_values is_resource_entry (fields fs) ≡ true)
unfolding is_resource_map as_object
is_resource_map-object null h = absurd (cc h)
is_resource_map-object (boolean b) h = absurd (cc h)
is_resource_map-object (natural n) h = absurd (cc h)
is_resource_map-object (number n) h = absurd (cc h)
is_resource_map-object (string s) h = absurd (cc h)
is_resource_map-object (array xs) h = absurd (cc h)
is_resource_map-object (object fs) h = (fs, refl, h)

is_str-string : (v : Json) → is_str (some v) ≡ true → (s : Text) × (v ≡ string s)
unfolding is_str as_string
is_str-string null h = absurd (cc h)
is_str-string (boolean b) h = absurd (cc h)
is_str-string (natural n) h = absurd (cc h)
is_str-string (number n) h = absurd (cc h)
is_str-string (array xs) h = absurd (cc h)
is_str-string (object fs) h = absurd (cc h)
is_str-string (string s) h = (s, refl)

module _ (fs : Fields) where
  names-NamesRead :
      (key : Text)
      → issue_at key is_str_array (not_strings key) (fields fs) ≡ []
      → NamesRead (fields fs) key (names key (some (object fs)))
  unfolding names at_key as_object as_array
  names-NamesRead key h = elim (issue_at-empty key is_str_array (not_strings key) (fields fs) h) [
    | inl gone ↦ inl (gone, rw (gone, names) refl)
    | inr (v, at, ok) ↦
        let (xs, is, strings) = is_str_array-array v ok in
        let here : Dict.get key (fields fs) ≡ some (array xs) = at ∙ ap (λ z. some z) is in
        let read : names key (some (object fs)) ≡ texts (items xs) =
          rw (here, names) (rw strings refl) in
        inr (xs, here, rw read (all_str-Reads (items xs) strings))
  ]

  name_issues-NamesRead :
      (keys : List Text)
      → name_issues keys (fields fs) ≡ []
      → All (λ key. NamesRead (fields fs) key (names key (some (object fs)))) keys
  unfolding name_issues
  name_issues-NamesRead [] h = tt
  name_issues-NamesRead (key ∷ keys) h =
      let (here, later) =
        append_empty (issue_at key is_str_array (not_strings key) (fields fs))
          (name_issues keys (fields fs)) h in
      (names-NamesRead key here, name_issues-NamesRead keys later)

  -- A bindings.json without issues is read whole: every name of its seven lists, the directory of
  -- the assets, every Durable Object and every storage resource, in order, and every variable but
  -- one named `__proto__`, where no two variables have one name.
  pub bindings_of-IsWhole :
      bindings_errors (some (object fs)) ≡ [] → IsWhole (fields fs) (bindings_of (some (object fs)))
  unfolding bindings_errors entry_issues bindings_of as_object at_key as_string as_array
      durable_objects_of resource_bindings_of vars_of
  bindings_of-IsWhole h =
      let entries = fields fs in
      let of_assets = issue_at (codes "assets") (λ v. is_str (some v)) bad_assets entries in
      let of_vars = issue_at (codes "vars") is_str_map bad_vars entries in
      let of_do = issue_at (codes "do") is_do_array bad_do entries in
      let of_resources = issue_at (codes "resources") is_resource_map bad_resources entries in
      let (named, h1) =
        append_empty (name_issues name_keys entries)
          (of_assets ++ (of_vars ++ (of_do ++ of_resources))) h in
      let (assets, h2) = append_empty of_assets (of_vars ++ (of_do ++ of_resources)) h1 in
      let (_, h3) = append_empty of_vars (of_do ++ of_resources) h2 in
      let (dos, resources) = append_empty of_do of_resources h3 in
      record {
        lists = name_issues-NamesRead name_keys named;
        asset_dir =
            elim (issue_at-empty (codes "assets") (λ v. is_str (some v)) bad_assets entries
              assets) [
                | inl gone ↦ inl (gone, rw (gone, as_string) refl)
                | inr (v, at, ok) ↦
                    let (s, is) = is_str-string v ok in
                    let here = at ∙ ap (λ z. some z) is in inr (s, here, ap (λ z. as_string z) here)
              ];
        objects = elim (issue_at-empty (codes "do") is_do_array bad_do entries dos) [
          | inl gone ↦ inl (gone, rw (gone, durable_objects_of) refl)
          | inr (v, at, ok) ↦
              let (xs, is, good) = is_do_array-array v ok in
              let here : Dict.get (codes "do") entries ≡ some (array xs) =
                at ∙ ap (λ z. some z) is in
              let read : durable_objects_of (some (object fs)) ≡ durables (items xs) =
                rw (here, durable_objects_of) refl in
              inr (xs, here, rw read (all_durable-Reads (items xs) good))
        ];
        refs =
            elim (issue_at-empty (codes "resources") is_resource_map bad_resources entries
              resources) [
                | inl gone ↦ inl (gone, rw (gone, resource_bindings_of) refl)
                | inr (v, at, ok) ↦
                    let (rs, is, good) = is_resource_map-object v ok in
                    let here : Dict.get (codes "resources") entries ≡ some (object rs) =
                      at ∙ ap (λ z. some z) is in
                    let read : resource_bindings_of (some (object fs)) ≡ refs_of (fields rs) =
                      rw (here, resource_bindings_of) refl in
                    inr (rs, here, rw read (all_values-Reads (fields rs) good))
              ];
        variables = λ vs name item at unique ok found.
            rw (at, vars_of) (get-vars_from name item (fields vs) [] unique ok found);
      }
