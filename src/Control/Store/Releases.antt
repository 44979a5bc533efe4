-- ===== src/Control/Store/Releases.antt =====
-- apps/control/src/store.ts: what it promises of versions. A project points at its current
-- version; the tables instead flag the rows that are active.
use sproutboat.Base.{
  ◌≡◌, ◌↔◌, Bool, true, false, ◌&&◌, not, Option, none, some, List, [], ◌∷◌, if◌then◌else◌, pair_eq,
}
use mathlib.Core.Option
use sproutboat.Base.Codes.{Text, text_eq, text_eq_inst}
use sproutboat.Base.Dict
use sproutboat.Base.Dict.{Dict}
use sproutboat.Control.Store.{Pair, Deployment, Database, home}
use sproutboat.Control.Store.Deployments.{
  record_deployment, activate_deployment, delete_deployment, delete_project,
}

pub record Releases : Type 0 where
  pub project_of : Text → Option Pair
  pub current : Pair → Option Text

abbrev pub same_project : Pair → Pair → Bool
same_project a b = text_eq a.0 b.0 && text_eq a.1 b.1

abbrev pub is_project : Pair → Option Pair → Bool
is_project p none = false
is_project p (some q) = same_project q p

abbrev pub is_current : Text → Option Text → Bool
is_current id none = false
is_current id (some j) = text_eq j id

abbrev pub point : Pair → Text → Releases → Releases
point p id r = record r { current = λ q. if same_project p q then some id else r.current q }

abbrev pub release : Pair → Text → Releases → Releases
release p id r = record (point p id r) {
  project_of = λ j. if text_eq id j then some p else r.project_of j;
}

abbrev pub roll_back : Pair → Text → Releases → Releases
roll_back p id r = if is_project p (r.project_of id) then point p id r else r

abbrev pub withdraw : Pair → Text → Releases → Releases
withdraw p id r =
    if is_project p (r.project_of id) && not (is_current id (r.current p))
    then record r { project_of = λ j. if text_eq id j then none else r.project_of j }
    else r

abbrev pub close_project : Pair → Releases → Releases
close_project p r = record {
  project_of = λ j. if is_project p (r.project_of j) then none else r.project_of j;
  current = λ q. if same_project p q then none else r.current q;
}

pub data Operation : Type 0 where
  record_version : Text → Deployment → List Text → Operation
  activate_version : Text → Text → Text → Operation
  delete_version : Text → Text → Text → Operation
  remove_project : Text → Text → Operation

abbrev pub promise : Operation → Releases → Releases
promise (record_version id input rs) r = release (home input) id r
promise (activate_version owner project id) r = roll_back (owner, project) id r
promise (delete_version owner project id) r = withdraw (owner, project) id r
promise (remove_project owner project) r = close_project (owner, project) r

abbrev pub promises : List Operation → Releases → Releases
promises [] r = r
promises (op ∷ ops) r = promises ops (promise op r)

-- The tables after a result, if the operation did not throw.
abbrev pub tables {ℓ} : {R : Type ℓ} → Option (Database × R) → Option Database
tables none = none
tables (some (db, _)) = some db

unfoldable pub perform : Operation → Database → Option Database
perform (record_version id input rs) db = tables (record_deployment id input rs db)
perform (activate_version owner project id) db = tables (activate_deployment owner project id db)
perform (delete_version owner project id) db = some (delete_deployment owner project id db).0
perform (remove_project owner project) db = some (delete_project owner project db).0

unfoldable pub perform_all : List Operation → Database → Option Database
unfolding perform
perform_all [] db = some db
perform_all (op ∷ ops) db = elim (perform op db) [
  | none ↦ none
  | some after ↦ perform_all ops after
]

-- The version of an id is an active one of a project.
abbrev pub Current : Dict Text Deployment → Pair → Text → Type 0
Current table p id =
    (d : Deployment) × (Dict.get id table ≡ some d) × (d.active ≡ true) × (home d ≡ p)

-- The tables keep a state of the promise.
pub record Implements (db : Database) (r : Releases) : Type 0 where
  pub versions : (id : Text) → r.project_of id ≡ Option.map home (Dict.get id db.deployments)
  pub pointers : (p : Pair) (id : Text) → (r.current p ≡ some id) ↔ Current db.deployments p id
