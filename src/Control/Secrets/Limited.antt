-- ===== src/Control/Secrets/Limited.antt =====
-- apps/control/src/secrets.ts: the limit on a project's secrets.
use sproutboat.Base.{
  ℕ, ◌+◌, ◌≤◌, ◌≡◌, ◌⊎◌, sym, ap, refl, ◌∙◌, Bool, true, false, ◌&&◌, ◌||◌, not, any, Option, none,
  List, [], ◌∷◌, map, length, leb, ltb, ◌==◌, arith, if_ind, Bool-cases, inl, inr, Eq, pair_eq,
}
use sproutboat.Base.Codes.{Text, text_eq, text_eq_inst}
use sproutboat.Base.Dict
use sproutboat.Base.Dict.{Dict}
use sproutboat.Base.Order.{put, sort, text_leb}
use sproutboat.Control.Store.{Pair, Secret, Database}
use sproutboat.Control.Store.Deployments.{project_deployments}
use sproutboat.Control.Store.Domains.{
  set_secret, project_secrets, secret_names, secret_count, delete_secret,
}
use sproutboat.Control.Secrets.{
  is_secret_name, SecretReply, max_value_bytes, is_new, stored, put_secret, remove_secret,
}

module _ {A : Type 0} (test : A → Bool) where
  any-put :
      (le : A → A → Bool) (x : A) (xs : List A) → any test (put le x xs) ≡ (test x || any test xs)
  unfolding put
  any-put le x [] = refl
  any-put le x (y ∷ xs) = ground (arith, any-put le x xs)

  any-sort : (le : A → A → Bool) (xs : List A) → any test (sort le xs) ≡ any test xs
  unfolding sort
  any-sort le [] = refl
  any-sort le (x ∷ xs) = any-put le x (sort le xs) ∙ ap (λ b. test x || b) (any-sort le xs)

any-map :
    {A B : Type 0} (test : B → Bool) (f : A → B) (xs : List A)
    → any test (map f xs) ≡ any (λ x. test (f x)) xs
any-map test f [] = refl
any-map test f (x ∷ xs) = ap (λ b. test (f x) || b) (any-map test f xs)

abbrev of_project : Text → Text → Pair × Text → Bool
of_project owner project key = text_eq key.0.0 owner && text_eq key.0.1 project

module _ (owner project name : Text) where
  any-has :
      (m : Dict (Pair × Text) Secret)
      → any
          (λ (row : (Pair × Text) × Secret). text_eq row.0.1 name)
          (Dict.filter (λ key _. of_project owner project key) m)
        ≡ true
      → Dict.has ((owner, project), name) m ≡ true
  unfolding Dict.has Dict.get Dict.filter
  any-has [] h = absurd (cc h)
  any-has ((((o, p), n), v) ∷ m) h = ground (arith, h, any-has m)

module _ {K V : Type 0} ⦃e : Eq K⦄ (p : K → Bool) where
  abbrev count : Dict K V → ℕ
  count m = length (Dict.filter (λ k _. p k) m)

  count-insert : (k : K) (v : V) (m : Dict K V) → count (Dict.insert k v m) ≤ count m + 1
  unfolding Dict.insert Dict.filter
  count-insert k v [] = ground arith
  count-insert k v ((j, w) ∷ m) = ground (arith, count-insert k v m)

  count-update :
      (k : K) (v : V) (m : Dict K V) → Dict.has k m ≡ true → count (Dict.insert k v m) ≡ count m
  unfolding Dict.insert Dict.filter Dict.has Dict.get
  count-update k v [] h = absurd (cc h)
  count-update k v ((j, w) ∷ m) h = ground (arith, h, count-update k v m)

  count-delete : (k : K) (m : Dict K V) → count (Dict.delete k m) ≤ count m
  unfolding Dict.delete Dict.filter
  count-delete k [] = ground arith
  count-delete k ((j, w) ∷ m) = ground (arith, count-delete k m)

  count-other : (k : K) (v : V) (m : Dict K V) → p k ≡ false → count (Dict.insert k v m) ≡ count m
  unfolding Dict.insert Dict.filter
  count-other k v [] h = ground (arith, h)
  count-other k v ((j, w) ∷ m) h = ground (arith, h, count-other k v m)

-- The project has no more secrets than before, or no more than the limit.
abbrev pub IsLimited : ℕ → Text → Text → Database → Database → Type 0
IsLimited limit owner project db after =
    (secret_count owner project after ≤ secret_count owner project db)
    ⊎ (secret_count owner project after ≤ limit)

-- A name that is not new is a key.
not_new-has :
    (owner project name : Text) (db : Database)
    → is_new owner project name db ≡ false
    → Dict.has ((owner, project), name) db.secrets ≡ true
unfolding is_new secret_names project_secrets
not_new-has owner project name db h =
    let le = λ (x y : (Pair × Text) × Secret). text_leb x.0.1 y.0.1 in
    let rows = project_secrets owner project db in
    let named = λ (row : (Pair × Text) × Secret). text_eq row.0.1 name in
    let listed : any (λ n. text_eq n name) (secret_names owner project db) ≡ any named rows =
      any-map (λ n. text_eq n name) (λ (row : (Pair × Text) × Secret). row.0.1) (sort le rows)
      ∙ any-sort named le rows in
    any-has owner project name db.secrets
      (sym listed ∙ negated (any (λ n. text_eq n name) (secret_names owner project db)) h)
  where
    negated : (b : Bool) → not b ≡ false → b ≡ true
    negated true e = refl
    negated false e = absurd (cc e)

module _ (encrypt : Text → Text) (limit : ℕ) (owner project name value : Text) (clock : ℕ)
    (db : Database) where
  stored-IsLimited :
      (o p : Text)
      → (is_new owner project name db && leb limit (secret_count owner project db)) ≡ false
      → IsLimited limit o p db
          (stored
            (is_new owner project name db)
            db
            (set_secret encrypt owner project name value clock db)).0
  unfolding set_secret stored secret_count project_secrets
  stored-IsLimited o p allowed =
      let key : Pair × Text = ((owner, project), name) in
      let secret : Secret = record { ciphertext = encrypt value; updated_at = clock } in
      if_ind
        (λ (z : Option Database).
          IsLimited limit o p db (stored (is_new owner project name db) db z).0)
        (not (Dict.has (owner, project) db.projects)) none _ (λ _. inl (omega arith))
        (λ _. elim (Bool-cases (of_project o p key)) [
          | inr other ↦
              let same = count-other (of_project o p) key secret db.secrets other in
              inl (omega (arith, same))
          | inl mine ↦ elim (Bool-cases (is_new owner project name db)) [
            | inr old ↦
                let same =
                  count-update (of_project o p) key secret db.secrets
                    (not_new-has owner project name db old) in
                inl (omega (arith, same))
            | inl new ↦
                let (is_owner, is_project) = both (text_eq owner o) (text_eq project p) mine in
                let one = (text_eq_inst.beq_iff owner o).0 is_owner in
                let two = (text_eq_inst.beq_iff project p).0 is_project in
                let room : secret_count owner project db + 1 ≤ limit =
                  has_room (secret_count owner project db) limit (
                    ap (λ b. b && leb limit (secret_count owner project db)) (sym new) ∙ allowed) in
                let more = count-insert (of_project o p) key secret db.secrets in
                let counted =
                  ap (λ x. secret_count x project db) one ∙ ap (λ x. secret_count o x db) two in
                inr (omega (arith, more, room, counted))
          ]
        ])
    where
      both : (a b : Bool) → (a && b) ≡ true → (a ≡ true) × (b ≡ true)
      both a b h = ground (arith, h)

      has_room : (n m : ℕ) → (true && leb m n) ≡ false → n + 1 ≤ m
      has_room n m h = ground (arith, h)

  -- Setting a secret, whatever its outcome, leaves each project no more secrets than it had, or
  -- no more than the limit allows.
  pub put_secret-IsLimited :
      (byte_length : Text → ℕ) (o p : Text)
      → IsLimited limit o p db
          (put_secret encrypt byte_length limit owner project name value clock db).0
  unfolding put_secret
  put_secret-IsLimited byte_length o p =
      let P = λ (z : Database × Option SecretReply). IsLimited limit o p db z.0 in
      let same : IsLimited limit o p db db = inl (omega arith) in
      if_ind P (not (is_secret_name name)) _ _ (λ _. same)
        (λ _.
          if_ind P (length (project_deployments owner project db) == 0) _ _ (λ _. same)
            (λ _.
              if_ind P (text_eq value []) _ _ (λ _. same)
                (λ _.
                  if_ind P (ltb max_value_bytes (byte_length value)) _ _ (λ _. same)
                    (λ _.
                      if_ind P
                        (is_new owner project name db && leb limit (secret_count owner project db))
                        _ _ (λ _. same) (λ allowed. stored-IsLimited o p allowed)))))

-- Removing a secret leaves no project more secrets.
pub secret_count-remove_secret :
    (owner project name o p : Text) (db : Database)
    → secret_count o p (remove_secret owner project name db).0 ≤ secret_count o p db
unfolding remove_secret delete_secret secret_count project_secrets
secret_count-remove_secret owner project name o p db =
    count-delete (of_project o p) ((owner, project), name) db.secrets

-- Secrets are set and removed, with one cipher and one limit.
pub data Step (encrypt : Text → Text) (byte_length : Text → ℕ) (limit : ℕ) (db : Database)
    : Database → Type 0 where
  secret_put :
      (owner project name value : Text) (clock : ℕ)
      → Step encrypt byte_length limit db
          (put_secret encrypt byte_length limit owner project name value clock db).0
  secret_removed :
      (owner project name : Text)
      → Step encrypt byte_length limit db (remove_secret owner project name db).0

pub data Reach (encrypt : Text → Text) (byte_length : Text → ℕ) (limit : ℕ) (db : Database)
    : Database → Type 0 where
  here : Reach encrypt byte_length limit db db
  next :
      {x y : Database}
      → Reach encrypt byte_length limit db x
      → Step encrypt byte_length limit x y
      → Reach encrypt byte_length limit db y

-- From tables in which a project is within the limit, whatever secrets of this and of other projects
-- are set and removed: it stays within the limit.
pub Reach-secret_count :
    (encrypt : Text → Text) (byte_length : Text → ℕ) (limit : ℕ) (owner project : Text)
    {db after : Database}
    → Reach encrypt byte_length limit db after
    → secret_count owner project db ≤ limit
    → secret_count owner project after ≤ limit
Reach-secret_count encrypt byte_length limit owner project here h = h
Reach-secret_count encrypt byte_length limit owner project
      (next {x} r (secret_put o p name value clock)) h =
    let before = Reach-secret_count encrypt byte_length limit owner project r h in
    elim (put_secret-IsLimited encrypt limit o p name value clock x byte_length owner project) [
      | inl fewer ↦ omega (arith, fewer, before)
      | inr within ↦ within
    ]
Reach-secret_count encrypt byte_length limit owner project (next {x} r (secret_removed o p name))
      h =
    omega (
      arith,
      Reach-secret_count encrypt byte_length limit owner project r h,
      secret_count-remove_secret o p name owner project x,
    )
