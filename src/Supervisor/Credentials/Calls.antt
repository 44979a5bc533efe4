-- ===== src/Supervisor/Credentials/Calls.antt =====
-- services/supervisor/src/run.ts: what a credential allows after others were registered or revoked.
use sproutboat.Base.{
  ℕ, ◌≡◌, ◌↔◌, ap, sym, ◌∙◌, refl, Bool, true, false, Option, none, some, List, [], ◌∷◌, map,
  if◌then◌else◌, inl, inr, Bool-cases, if_ind, ◌==◌, arith,
}
use mathlib.Core.Option
use sproutboat.Base.Bag
use sproutboat.Base.Split.{split, onto_first}
use sproutboat.Base.Codes.{Text, text_eq, text_eq_iff, text_eq_inst}
use sproutboat.Base.Dict
use sproutboat.Base.Dict.{Dict, get-insert, get-delete}
use sproutboat.Supervisor.Credentials.{
  Credentials, first_of, host_only, register_credential, revoke_credential, allows,
  verify_binding_call,
}

-- A change to a broker's credential: it may call hosts from now on, or nothing.
pub data Change : Type 0 where
  register : Text → List Text → Change
  revoke : Text → Change

-- A host without the port that may follow a colon.
abbrev pub before_colon : Text → Text
before_colon [] = []
before_colon (c ∷ s) = if c == 58 then [] else c ∷ before_colon s

first_of-onto_first : (c : ℕ) (ts : List Text) → first_of (onto_first c ts) ≡ c ∷ first_of ts
unfolding first_of onto_first
first_of-onto_first c [] = refl
first_of-onto_first c (t ∷ ts) = refl

first_of-split : (s : Text) → first_of (split 58 s) ≡ before_colon s
unfolding split first_of
first_of-split [] = refl
first_of-split (c ∷ s) = ground (arith, first_of-onto_first c (split 58 s), first_of-split s)

has-map :
    (f : Text → Text) (t : Text) (xs : List Text)
    → (Bag.has t (map f xs) ≡ true) ↔ ((x : Text) × (Bag.has x xs ≡ true) × (f x ≡ t))
unfolding Bag.has
has-map f t [] = (λ h. absurd (cc h), λ (x, h, _). absurd (cc h))
has-map f t (y ∷ xs) = (
  λ h. elim (Bool-cases (text_eq (f y) t)) [
    | inl same ↦ (y, rw ((text_eq_iff y y).1 refl) refl, (text_eq_iff (f y) t).0 same)
    | inr ne ↦
        let (x, at, is) = (has-map f t xs).0 (rw ne at h) in
        (x, if_ind (λ b. b ≡ true) (text_eq y x) true (Bag.has x xs) (λ _. refl) (λ _. at), is)
  ],
  λ (x, h, is). elim (Bool-cases (text_eq y x)) [
    | inl same ↦
        let eq : f y ≡ t = ap f ((text_eq_iff y x).0 same) ∙ is in
        rw ((text_eq_iff (f y) t).1 eq) refl
    | inr ne ↦
        let later = (has-map f t xs).1 (x, rw ne at h, is) in
        if_ind (λ b. b ≡ true) (text_eq (f y) t) true (Bag.has t (map f xs)) (λ _. refl)
          (λ _. later)
  ],
)

module _ (hash lower : Text → Text) (same_hash : (s t : Text) → hash s ≡ hash t → s ≡ t) where
  unfoldable pub apply : List Change → Credentials → Credentials
  apply [] creds = creds
  apply (register credential hosts ∷ changes) creds =
      apply changes (register_credential hash lower credential hosts creds)
  apply (revoke credential ∷ changes) creds =
      apply changes (revoke_credential hash lower credential creds)

  -- The hosts that the last change of a credential leaves it.
  unfoldable pub hosts_after : Text → List Change → Option (List Text) → Option (List Text)
  hosts_after c [] hosts = hosts
  hosts_after c (register credential allowed ∷ changes) hosts =
      hosts_after c changes (if text_eq credential c then some allowed else hosts)
  hosts_after c (revoke credential ∷ changes) hosts =
      hosts_after c changes (if text_eq credential c then none else hosts)

  -- The host that is called is one of those, ports and letter case apart.
  abbrev pub May : Text → Option (List Text) → Type 0
  May host none = ⊥
  May host (some hosts) =
      (h : Text) × (Bag.has h hosts ≡ true) × (lower (before_colon h) ≡ lower (before_colon host))

  abbrev stored : Option (List Text) → Option (List Text)
  stored hosts = Option.map (λ hs. map (host_only hash lower) hs) hosts

  hash_eq : (s t : Text) → text_eq (hash s) (hash t) ≡ text_eq s t
  hash_eq s t = elim (Bool-cases (text_eq s t)) [
    | inl same ↦ (text_eq_iff (hash s) (hash t)).1 (ap hash ((text_eq_iff s t).0 same)) ∙ sym same
    | inr ne ↦ elim (Bool-cases (text_eq (hash s) (hash t))) [
      | inl hashes ↦
          absurd (
            cc ((text_eq_iff s t).1 (same_hash s t ((text_eq_iff (hash s) (hash t)).0 hashes)), ne))
      | inr other ↦ other ∙ sym ne
    ]
  ]

  chosen :
      (b d : Bool) {was : Option (List Text)} (hosts now : Option (List Text))
      → b ≡ d
      → was ≡ stored hosts
      → (if b then stored now else was) ≡ stored (if d then now else hosts)
  chosen b true hosts now e h = rw e refl
  chosen b false hosts now e h = rw e h

  apply-get :
      (c : Text) (changes : List Change) (creds : Credentials) (hosts : Option (List Text))
      → Dict.get (hash c) creds ≡ stored hosts
      → Dict.get (hash c) (apply changes creds) ≡ stored (hosts_after c changes hosts)
  unfolding apply hosts_after register_credential revoke_credential
  apply-get c [] creds hosts h = h
  apply-get c (register credential allowed ∷ changes) creds hosts h =
      apply-get c changes (Dict.insert (hash credential) (map (host_only hash lower) allowed) creds)
        (if text_eq credential c then some allowed else hosts)
        (get-insert (hash credential) (hash c) (map (host_only hash lower) allowed) creds
          ∙ chosen (text_eq (hash credential) (hash c)) (text_eq credential c) hosts (some allowed)
              (hash_eq credential c) h)
  apply-get c (revoke credential ∷ changes) creds hosts h =
      apply-get c changes (Dict.delete (hash credential) creds)
        (if text_eq credential c then none else hosts)
        (get-delete (hash credential) (hash c) creds
          ∙ chosen (text_eq (hash credential) (hash c)) (text_eq credential c) hosts none
              (hash_eq credential c) h)

  allows_iff :
      (host : Text) (hosts : Option (List Text))
      → (allows hash lower host (stored hosts) ≡ true) ↔ May host hosts
  unfolding allows host_only
  allows_iff host none = (λ h. absurd (cc h), λ m. absurd m)
  allows_iff host (some hosts) =
      let named = has-map (host_only hash lower) (host_only hash lower host) hosts in
      (
        λ h.
            let (x, at, is) = named.0 h in
            (x, at, ap lower (sym (first_of-split x)) ∙ is ∙ ap lower (first_of-split host)),
        λ (x, at, is).
            named.1
              (x, at, ap lower (first_of-split x) ∙ is ∙ ap lower (sym (first_of-split host))),
      )

  -- If the hash separates credentials: after any sequence of registrations and revocations a call
  -- with a credential that is not empty is allowed exactly when the last change of the credential
  -- registered hosts one of which is the host that is called, both read up to a colon and with
  -- `lower`.
  pub verify_binding_call_iff :
      (c : ℕ) (credential : Text) (host : Text) (changes : List Change)
      → (verify_binding_call hash lower (some (c ∷ credential)) host (apply changes []) ≡ true)
        ↔ May host (hosts_after (c ∷ credential) changes none)
  unfolding verify_binding_call Dict.get
  verify_binding_call_iff c credential host changes =
      let same = ap (allows hash lower host) (apply-get (c ∷ credential) changes [] none refl) in
      let iff = allows_iff host (hosts_after (c ∷ credential) changes none) in
      (λ h. iff.0 (sym same ∙ h), λ m. same ∙ iff.1 m)
