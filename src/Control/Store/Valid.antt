-- ===== src/Control/Store/Valid.antt =====
-- apps/control/src/store.ts: what the constraints of the schema and the code keep of the tables of
-- deployments, projects and artifacts.
use sproutboat.Base.{
  ℕ, ltb, ◌≡◌, sym, ap, refl, ◌∙◌, Bool, true, false, ◌&&◌, not, Option, some, List, [], ◌∷◌, arith,
  if_ind, inl, inr, Option-cases, pair_eq,
}
use sproutboat.Base.Codes.{Text, text_eq, text_eq_iff, text_eq_inst}
use sproutboat.Base.Dict
use sproutboat.Base.Dict.{
  Dict, get-insert, get-delete, get-filter, get-has-true, passing-some, map-some, has-some,
  has-filter, has-delete, exists-none, insert-Unique, update-Unique, filter-Unique, delete-Unique,
}
use sproutboat.Control.Store.{
  Pair, Deployment, Database, references, ref_of, home, drop_deployments, drop_projects,
}
use sproutboat.Control.Store.Deployments.{
  is_referenced, doomed_versions, delete_rows, prune_project_deployments, project_deployment,
  delete_deployment, DeploymentDeletion,
}
use sproutboat.Control.Store.Artifacts.{drop_row}

-- A project has one active version at most.
abbrev pub OneActive : Dict Text Deployment → Type 0
OneActive table =
    (i j : Text) (d e : Deployment)
    → Dict.get i table ≡ some d
    → Dict.get j table ≡ some e
    → d.active ≡ true
    → e.active ≡ true
    → home d ≡ home e
    → i ≡ j

-- Every version's artifact and project have a row.
abbrev pub HasParents : Database → Type 0
HasParents db =
    (i : Text) (d : Deployment)
    → Dict.get i db.deployments ≡ some d
    → (Dict.has (ref_of d) db.artifacts ≡ true) × (Dict.has (home d) db.projects ≡ true)

pub record IsValid (db : Database) : Type 0 where
  pub ids : Dict.Unique db.deployments
  pub project_keys : Dict.Unique db.projects
  pub one_active : OneActive db.deployments
  pub parents : HasParents db

-- A row that comes from a row of the same project and artifact, and no longer inactive.
pub record Comes (from : Dict Text Deployment) (i : Text) (d : Deployment) : Type 0 where
  pub old : Deployment
  pub at : Dict.get i from ≡ some old
  pub house : home d ≡ home old
  pub ref : ref_of d ≡ ref_of old
  pub live : d.active ≡ true → (old.active) ≡ true

abbrev pub Narrows : Dict Text Deployment → Dict Text Deployment → Type 0
Narrows from to = (i : Text) (d : Deployment) → Dict.get i to ≡ some d → Comes from i d

pub Narrows-self : (table : Dict Text Deployment) → Narrows table table
Narrows-self table i d h = record { old = d; at = h; house = refl; ref = refl; live = λ t. t }

pub Narrows-Narrows : (a b c : Dict Text Deployment) → Narrows a b → Narrows b c → Narrows a c
Narrows-Narrows a b c f g i d h =
    let y = g i d h in
    let x = f i y.old y.at in
    record {
      old = x.old;
      at = x.at;
      house = y.house ∙ x.house;
      ref = y.ref ∙ x.ref;
      live = λ t. x.live (y.live t);
    }

pub Narrows-OneActive : (a b : Dict Text Deployment) → Narrows a b → OneActive a → OneActive b
Narrows-OneActive a b n one i j d e hi hj di ej same =
    let x = n i d hi in
    let y = n j e hj in
    one i j x.old y.old x.at y.at (x.live di) (y.live ej) (sym x.house ∙ same ∙ y.house)

-- A narrower table, where no parent that it needs is gone.
pub Narrows-IsValid :
    (db after : Database)
    → IsValid db
    → Dict.Unique after.deployments
    → Dict.Unique after.projects
    → Narrows db.deployments after.deployments
    → ((i : Text) (d : Deployment)
        → Dict.get i after.deployments ≡ some d
        → (Dict.has (ref_of d) db.artifacts ≡ true → Dict.has (ref_of d) after.artifacts ≡ true)
          × (Dict.has (home d) db.projects ≡ true → Dict.has (home d) after.projects ≡ true))
    → IsValid after
Narrows-IsValid db after v ids keys n still = record {
  ids = ids;
  project_keys = keys;
  one_active = Narrows-OneActive db.deployments after.deployments n v.one_active;
  parents = λ i d h.
      let x = n i d h in
      let (stored, housed) = v.parents i x.old x.at in
      let (keeps_ref, keeps_home) = still i d h in
      (
        keeps_ref (ap (λ r. Dict.has r db.artifacts) x.ref ∙ stored),
        keeps_home (ap (λ r. Dict.has r db.projects) x.house ∙ housed),
      );
}

filter-Narrows :
    (p : Text → Deployment → Bool) (table : Dict Text Deployment)
    → Dict.Unique table
    → Narrows table (Dict.filter p table)
filter-Narrows p table u i d h =
    let (at, _) = passing-some (p i) _ d (sym (get-filter i p table u) ∙ h) in
    record { old = d; at = at; house = refl; ref = refl; live = λ t. t }

pub drop_deployments-IsValid :
    (doomed : Text → Deployment → Bool) (db : Database)
    → IsValid db
    → IsValid (drop_deployments doomed db)
unfolding drop_deployments
drop_deployments-IsValid doomed db v =
    Narrows-IsValid db (drop_deployments doomed db) v (filter-Unique _ db.deployments v.ids)
      v.project_keys (filter-Narrows _ db.deployments v.ids) (λ i d h. (λ t. t, λ t. t))

pub delete_rows-IsValid :
    (rows : Dict Text Deployment) (db : Database) → IsValid db → IsValid (delete_rows rows db)
unfolding delete_rows
delete_rows-IsValid [] db v = v
delete_rows-IsValid ((id, _) ∷ rows) db v =
    delete_rows-IsValid rows _ (drop_deployments-IsValid _ db v)

not-false : (b : Bool) → not b ≡ true → b ≡ false
not-false b h = ground arith

pub drop_projects-IsValid :
    (doomed : Pair → Bool) (db : Database) → IsValid db → IsValid (drop_projects doomed db)
unfolding drop_projects drop_deployments
drop_projects-IsValid doomed db v =
    Narrows-IsValid db (drop_projects doomed db) v (filter-Unique _ db.deployments v.ids)
      (filter-Unique _ db.projects v.project_keys) (filter-Narrows _ db.deployments v.ids)
      (λ i d h.
        let (_, kept) =
          passing-some (λ x. not (doomed (home x))) (Dict.get i db.deployments) d
            (sym (get-filter i _ db.deployments v.ids) ∙ h) in
        (λ t. t, has-filter (home d) _ db.projects v.project_keys (λ _. kept)))

-- An artifact's row may go where nothing references it.
pub drop_row-IsValid :
    (ref : Pair) (db : Database)
    → is_referenced ref db ≡ false
    → IsValid db
    → IsValid (drop_row ref db)
unfolding drop_row is_referenced references
drop_row-IsValid ref db free v = record {
  ids = v.ids;
  project_keys = v.project_keys;
  one_active = v.one_active;
  parents = λ i d h.
      let (stored, housed) = v.parents i d h in
      let unused : (text_eq d.owner_id ref.0 && text_eq d.artifact ref.1) ≡ false =
        exists-none i d (λ _ e. references ref e) db.deployments free h in
      (
        has-delete ref (ref_of d) db.artifacts (
              ground (
                arith,
                unused,
                text_eq_iff d.owner_id ref.0,
                text_eq_iff ref.0 d.owner_id,
                text_eq_iff d.artifact ref.1,
                text_eq_iff ref.1 d.artifact,
              ))
            ∙ stored,
        housed,
      );
}

pub prune_project_deployments-IsValid :
    (owner project : Text) (kept : ℕ) (db : Database)
    → IsValid db
    → IsValid (prune_project_deployments owner project kept db).0
unfolding prune_project_deployments
prune_project_deployments-IsValid owner project kept db v =
    if_ind (λ (z : Database × List Pair). IsValid z.0) (ltb kept 1) _ _ (λ _. v)
      (λ _. delete_rows-IsValid (doomed_versions owner project kept db) db v)

pub delete_deployment-IsValid :
    (owner project id : Text) (db : Database)
    → IsValid db
    → IsValid (delete_deployment owner project id db).0
unfolding delete_deployment
delete_deployment-IsValid owner project id db v =
    elim (Option-cases (project_deployment owner project id db)) [
      | inl gone ↦ rw (gone, delete_deployment) v
      | inr (row, found) ↦
          rw (found, delete_deployment)
            (if_ind (λ (z : Database × Option DeploymentDeletion). IsValid z.0) (row.active) _ _
              (λ _. v) (λ _. drop_deployments-IsValid _ db v))
    ]
