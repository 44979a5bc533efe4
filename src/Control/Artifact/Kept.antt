-- ===== src/Control/Artifact/Kept.antt =====
-- apps/control/src/artifact.ts: what passes the check is read whole.
use sproutboat.Base.{
  ◌≡◌, ◌⊎◌, sym, ap, refl, ◌∙◌, Bool, true, false, ◌&&◌, Option, none, some, List, [], ◌∷◌, ◌++◌,
  map, arith, if_ind, if◌then◌else◌, Option-cases, inl, inr,
}
use sproutboat.Base.Codes.{Text, codes, text_eq, text_eq_inst}
use sproutboat.Base.Dict
use sproutboat.Base.Dict.{Dict}
use sproutboat.Base.Json.{Json, string, as_string, at_key}
use sproutboat.Control.Store.{ResourceKind}
use sproutboat.Control.Deploys.Uploads.{ResourceBindingRef}
use sproutboat.Control.Artifact.{
  is_some, is_str, all_str, all_values, is_durable_object, all_durable, is_kind, kind_of,
  is_resource_entry, BindingsIssue, issue_at, ref_of, refs_of, set_var, vars_from, DurableObject,
  texts, durable_object, durables,
}

pub append_empty : {A : Type 0} (xs ys : List A) → xs ++ ys ≡ [] → (xs ≡ []) × (ys ≡ [])
append_empty [] ys h = (refl, h)
append_empty (x ∷ xs) ys h = absurd (cc h)

-- A key that raises no issue is absent or passes its test.
pub issue_at-empty :
    (key : Text) (test : Json → Bool) (issue : BindingsIssue) (entries : Dict Text Json)
    → issue_at key test issue entries ≡ []
    → (Dict.get key entries ≡ none)
      ⊎ ((value : Json) × (Dict.get key entries ≡ some value) × (test value ≡ true))
unfolding issue_at
issue_at-empty key test issue entries h = elim (Option-cases (Dict.get key entries)) [
  | inl gone ↦ inl gone
  | inr (value, at) ↦
      let passed : issue_at key test issue entries ≡ [] → test value ≡ true =
        rw (at, issue_at) (λ e. passes (test value) e) in
      inr (value, at, passed h)
]
  where
    passes : (b : Bool) → (if b then [] else issue ∷ []) ≡ [] → b ≡ true
    passes true e = refl
    passes false e = absurd (cc e)

-- What every member of a list makes, in order, is the list `ys`: none is dropped.
abbrev pub Reads {ℓ κ} : {A : Type ℓ} {B : Type κ} → (A → Option B) → List A → List B → Type κ
Reads read xs ys = map read xs ≡ map some ys

both : (a b : Bool) → (a && b) ≡ true → (a ≡ true) × (b ≡ true)
both a b h = ground (arith, h)

is_some-true : {A : Type 0} (o : Option A) → is_some o ≡ true → (x : A) × (o ≡ some x)
unfolding is_some
is_some-true none h = absurd (cc h)
is_some-true (some x) h = (x, refl)

pub all_str-Reads :
    (xs : List Json) → all_str xs ≡ true → Reads (λ x. as_string (some x)) xs (texts xs)
unfolding all_str texts is_str
all_str-Reads [] h = refl
all_str-Reads (x ∷ xs) h =
    let (here, later) = both (is_str (some x)) (all_str xs) h in
    let (s, is) = is_some-true (as_string (some x)) here in
    rw (is, texts) (ap (λ l. some s ∷ l) (all_str-Reads xs later))

durable_object-found :
    (x : Json) (binding class : Text)
    → as_string (at_key (codes "binding") (some x)) ≡ some binding
    → as_string (at_key (codes "className") (some x)) ≡ some class
    → durable_object x ≡ some (record { binding = binding; class_name = class })
unfolding durable_object
durable_object-found x binding class is of = rw (is, durable_object) (rw (of, durable_object) refl)

durable_object-some :
    (x : Json) → is_durable_object x ≡ true → (d : DurableObject) × (durable_object x ≡ some d)
unfolding durable_object is_durable_object is_str
durable_object-some x h =
    let (named, classed) =
      both (is_str (at_key (codes "binding") (some x)))
        (is_str (at_key (codes "className") (some x))) h in
    let (binding, is) = is_some-true (as_string (at_key (codes "binding") (some x))) named in
    let (class, of) = is_some-true (as_string (at_key (codes "className") (some x))) classed in
    (record { binding = binding; class_name = class }, durable_object-found x binding class is of)

pub all_durable-Reads :
    (xs : List Json) → all_durable xs ≡ true → Reads durable_object xs (durables xs)
unfolding all_durable durables
all_durable-Reads [] h = refl
all_durable-Reads (x ∷ xs) h =
    let (here, later) = both (is_durable_object x) (all_durable xs) h in
    let (d, is) = durable_object-some x here in
    rw (is, durables) (ap (λ l. some d ∷ l) (all_durable-Reads xs later))

ref_of-found :
    (binding : Text) (entry : Json) (id name : Text) (kind : ResourceKind)
    → as_string (at_key (codes "id") (some entry)) ≡ some id
    → as_string (at_key (codes "kind") (some entry)) ≡ some name
    → kind_of name ≡ some kind
    → ref_of binding entry ≡ some (record { binding = binding; kind = kind; id = id })
unfolding ref_of
ref_of-found binding entry id name kind is of from =
    rw (is, ref_of) (rw (of, ref_of) (rw (from, ref_of) refl))

ref_of-some :
    (binding : Text) (entry : Json)
    → is_resource_entry entry ≡ true
    → (ref : ResourceBindingRef) × (ref_of binding entry ≡ some ref)
unfolding ref_of is_resource_entry is_str is_kind
ref_of-some binding entry h =
    let kind_at = at_key (codes "kind") (some entry) in
    let (has_id, rest) =
      both (is_str (at_key (codes "id") (some entry)))
        (is_str kind_at && is_kind (as_string kind_at)) h in
    let (has_kind, known) = both (is_str kind_at) (is_kind (as_string kind_at)) rest in
    let (id, is) = is_some-true (as_string (at_key (codes "id") (some entry))) has_id in
    let (name, of) = is_some-true (as_string kind_at) has_kind in
    let known_name : is_some (kind_of name) ≡ true =
      sym (name_kind name) ∙ ap is_kind (sym of) ∙ known in
    let (kind, from) = is_some-true (kind_of name) known_name in
    (
      record { binding = binding; kind = kind; id = id },
      ref_of-found binding entry id name kind is of from,
    )
  where
    name_kind : (name : Text) → is_kind (some name) ≡ is_some (kind_of name)
    name_kind name = refl

pub all_values-Reads :
    (entries : Dict Text Json)
    → all_values is_resource_entry entries ≡ true
    → Reads (λ (e : Text × Json). ref_of e.0 e.1) entries (refs_of entries)
unfolding all_values refs_of
all_values-Reads [] h = refl
all_values-Reads ((binding, entry) ∷ entries) h =
    let (here, later) = both (is_resource_entry entry) (all_values is_resource_entry entries) h in
    let (ref, is) = ref_of-some binding entry here in
    rw (is, refs_of) (ap (λ l. some ref ∷ l) (all_values-Reads entries later))

get-set_var_other :
    (name other item : Text) (vars : Dict Text Text)
    → text_eq other name ≡ false
    → Dict.get name (set_var other item vars) ≡ Dict.get name vars
unfolding set_var
get-set_var_other name other item vars ne =
    if_ind (λ (z : Dict Text Text). Dict.get name z ≡ Dict.get name vars)
      (text_eq other (codes "__proto__")) vars (Dict.insert other item vars) (λ _. refl)
      (λ _. Dict.get-insert_other other name item vars ne)

get-set_var :
    (name item : Text) (vars : Dict Text Text)
    → text_eq name (codes "__proto__") ≡ false
    → Dict.get name (set_var name item vars) ≡ some item
unfolding set_var
get-set_var name item vars ne = rw (ne, set_var) (Dict.get-insert_self name item vars)

get-vars_from_absent :
    (name : Text) (entries : Dict Text Json) (vars : Dict Text Text)
    → Dict.get name entries ≡ none
    → Dict.get name (vars_from entries vars) ≡ Dict.get name vars
unfolding vars_from Dict.get
get-vars_from_absent name [] vars h = refl
get-vars_from_absent name ((other, item) ∷ entries) vars h =
    let (ne, later) = split_miss (text_eq other name) (Dict.get name entries) h in
    elim (Option-cases (as_string (some item))) [
      | inl gone ↦ rw (gone, vars_from) (get-vars_from_absent name entries vars later)
      | inr (s, is) ↦
          rw (is, vars_from)
            (get-vars_from_absent name entries (set_var other s vars) later
              ∙ get-set_var_other name other s vars ne)
    ]
  where
    split_miss :
        (b : Bool) (o : Option Json)
        → (if b then some item else o) ≡ none
        → (b ≡ false) × (o ≡ none)
    split_miss true o e = absurd (cc e)
    split_miss false o e = (refl, e)

no_entry : (name item : Text) → ◌≡◌ {A = Option Json} (Dict.get name []) (some (string item)) → ⊥
unfolding Dict.get
no_entry name item h = cc h

-- Each string of the map is a variable, but the one whose name is no property.
pub get-vars_from :
    (name item : Text) (entries : Dict Text Json) (vars : Dict Text Text)
    → Dict.Unique entries
    → text_eq name (codes "__proto__") ≡ false
    → Dict.get name entries ≡ some (string item)
    → Dict.get name (vars_from entries vars) ≡ some item
unfolding vars_from as_string
get-vars_from name item [] vars u ok h = absurd (no_entry name item h)
get-vars_from name item ((other, x) ∷ entries) vars (new, u) ok h =
    elim (Dict.get_cases other name x (string item) entries h) [
      | inr old ↦ get-vars_from name item entries _ u ok old
      | inl (same, is) ↦ rw is (
          get-vars_from_absent name entries (set_var other item vars)
            (ap (λ k. Dict.get k entries) (sym same) ∙ new)
          ∙ ap (λ k. Dict.get name (set_var k item vars)) same
          ∙ get-set_var name item vars ok)
    ]
