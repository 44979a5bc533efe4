-- ===== src/Control/Deploys/Names.antt =====
-- apps/control/src/deployments.ts: hostnames, and the bindings that a deploy resolves.
use sproutboat.Base.{
  ℕ, ◌-◌, ◌≡◌, ◌≢◌, sym, ap, refl, ◌∙◌, true, false, all, some, List, [], ◌∷◌, ◌++◌, length,
  length-append, ltb, All, arith, if_ind, inl, inr, Bool-cases, Option-cases,
}
use sproutboat.Base.Codes.{Text, text_eq, text_eq_iff, text_eq_self, text_eq_inst}
use sproutboat.Base.Bag
use sproutboat.Base.Bag.{has-add}
use sproutboat.Base.Order.{first, slice}
use sproutboat.Base.Split.{split, split-All, split-append}
use sproutboat.Control.Store.{StorageResource, Database}
use sproutboat.Control.Store.Resources.{kind_text, resource_by_id}
use sproutboat.Control.Deploys.Uploads.{
  is_alnum, is_label_char, is_project_name, deployment_hostname, strip_suffix, is_label,
  is_two_labels, is_deployment_hostname, ResourceBindingRef, resolved, resolve_from,
  resolve_resource_bindings,
}

slice-append : (s t : Text) → slice (length s) (s ++ t) ≡ t
unfolding slice
slice-append [] t = refl
slice-append (c ∷ s) t = slice-append s t

first-append : (s t : Text) → first (length s) (s ++ t) ≡ s
unfolding first
first-append [] t = refl
first-append (c ∷ s) t = ap (λ rest. c ∷ rest) (first-append s t)

strip_suffix-append : (s t : Text) → strip_suffix t (s ++ t) ≡ some s
unfolding strip_suffix
strip_suffix-append s t =
    let size : length (s ++ t) - length t ≡ length s = omega (arith, length-append s t) in
    let long : ltb (length (s ++ t)) (length t) ≡ false = ground (arith, length-append s t) in
    rw (long, size) (rw (slice-append s t, text_eq_self t) (ap (λ x. some x) (first-append s t)))

no_dot : (c : ℕ) → is_label_char c ≡ true → c ≢ 46
unfolding is_label_char is_alnum
no_dot c h same = absurd (ground (arith, h, same))

no_dots : (s : Text) → all is_label_char s ≡ true → All (λ c. c ≢ 46) s
no_dots [] h = tt
no_dots (c ∷ s) h = (no_dot c (ground (arith, h)), no_dots s (ground (arith, h)))

project_label : (project : Text) → is_project_name project ≡ true → is_label project ≡ true
unfolding is_project_name is_label is_label_char text_eq
project_label [] h = absurd (cc h)
project_label (c ∷ []) h = rw h refl
project_label (c ∷ d ∷ rest) h = ground (arith, h)

label_chars : (s : Text) → is_label s ≡ true → all is_label_char s ≡ true
unfolding is_label
label_chars s h = ground (arith, h)

-- The generated hostname of a valid project name and a user name of one or more of [a-z0-9-] is
-- recognised as one, whatever the configured domain.
pub is_deployment_hostname-deployment_hostname :
    (domain project username : Text)
    → is_project_name project ≡ true
    → is_label username ≡ true
    → is_deployment_hostname domain (deployment_hostname domain project username) ≡ true
unfolding is_deployment_hostname deployment_hostname is_two_labels
is_deployment_hostname-deployment_hostname domain project username p u =
    let label = project_label project p in
    let parts : split 46 (project ++ 46 ∷ username) ≡ project ∷ username ∷ [] =
      split-append 46 project username (no_dots project (label_chars project label))
      ∙ ap (λ rest. project ∷ rest)
          (split-All 46 username (no_dots username (label_chars username u))) in
    rw (strip_suffix-append (project ++ 46 ∷ username) (46 ∷ domain), is_deployment_hostname)
      (rw parts (rw (label, u) refl))

-- What a resolved binding names.
abbrev pub IsOwned : Text → Database → List Text → ResourceBindingRef → Type 0
IsOwned owner db ids ref =
    (resource : StorageResource) × (resource_by_id owner ref.id db ≡ some resource)
    × (kind_text resource.kind ≡ kind_text ref.kind)
    × (Bag.has ref.id ids ≡ true)

-- The ids only grow.
resolve_from-has :
    (ids out : List Text) (owner id : Text) (db : Database) (refs : List ResourceBindingRef)
    → resolve_from ids owner db refs ≡ resolved out
    → Bag.has id ids ≡ true
    → Bag.has id out ≡ true
unfolding resolve_from
resolve_from-has ids out owner id db [] e h =
    let is : ids ≡ out = cc e in ap (λ xs. Bag.has id xs) (sym is) ∙ h
resolve_from-has ids out owner id db (ref ∷ refs) e h =
    elim (Option-cases (resource_by_id owner ref.id db)) [
      | inl gone ↦ absurd (ground (arith, e, gone))
      | inr (resource, at) ↦
          elim (Bool-cases (text_eq (kind_text resource.kind) (kind_text ref.kind))) [
            | inr ne ↦ absurd (ground (arith, e, at, ne))
            | inl eq ↦
                resolve_from-has (Bag.add ref.id ids) out owner id db refs
                  (ground (arith, e, at, eq))
                  (has-add ref.id id ids
                    ∙ if_ind (λ z. z ≡ true) (text_eq ref.id id) true (Bag.has id ids) (λ _. refl)
                        (λ _. h))
          ]
    ]

resolve_from-All :
    (ids out : List Text) (owner : Text) (db : Database) (refs : List ResourceBindingRef)
    → resolve_from ids owner db refs ≡ resolved out
    → All (IsOwned owner db out) refs
unfolding resolve_from
resolve_from-All ids out owner db [] e = tt
resolve_from-All ids out owner db (ref ∷ refs) e =
    elim (Option-cases (resource_by_id owner ref.id db)) [
      | inl gone ↦ absurd (ground (arith, e, gone))
      | inr (resource, at) ↦
          elim (Bool-cases (text_eq (kind_text resource.kind) (kind_text ref.kind))) [
            | inr ne ↦ absurd (ground (arith, e, at, ne))
            | inl eq ↦
                let rest : resolve_from (Bag.add ref.id ids) owner db refs ≡ resolved out =
                  ground (arith, e, at, eq) in
                (
                  (
                    resource,
                    at,
                    (text_eq_iff (kind_text resource.kind) (kind_text ref.kind)).0 eq,
                    resolve_from-has (Bag.add ref.id ids) out owner ref.id db refs rest
                        (has-add ref.id ref.id ids ∙ rw (text_eq_self ref.id) refl),
                  ),
                  resolve_from-All (Bag.add ref.id ids) out owner db refs rest,
                )
          ]
    ]

-- A deploy whose storage bindings resolve is recorded against resources of its own account only:
-- each binding names a resource that the owner holds, of the declared kind, and its id is among
-- those recorded.
pub resolve_resource_bindings-All :
    (owner : Text) (db : Database) (refs : List ResourceBindingRef) (ids : List Text)
    → resolve_resource_bindings owner db refs ≡ resolved ids
    → All (IsOwned owner db ids) refs
unfolding resolve_resource_bindings
resolve_resource_bindings-All owner db refs ids e = resolve_from-All [] ids owner db refs e
