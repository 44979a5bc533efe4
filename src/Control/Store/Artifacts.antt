-- ===== src/Control/Store/Artifacts.antt =====
-- apps/control/src/store.ts: which artifacts are held in flight, their collection, and the sweeps
-- of broker state and of uploads. The owner's directory (a hash), what `rm` manages to remove and
-- the ages of files are arguments. The artifacts directory is a map from an owner's directory and
-- a digest. A collection is one step here: the source waits for each removal and tests before each
-- whether the artifact is in flight by then.
use sproutboat.Base.{
  ℕ, ◌+◌, leb, ◌==◌, Bool, false, ◌&&◌, ◌||◌, not, all, length, Option, none, some, List, [], ◌∷◌,
  ◌++◌, map, if◌then◌else◌, pair_eq,
}
use sproutboat.Base.Codes.{Text, codes, text_eq, text_eq_inst}
use sproutboat.Base.Bag
use sproutboat.Base.Dict
use sproutboat.Base.Dict.{Dict}
use sproutboat.Base.Order.{keep, slice, first}
use sproutboat.Base.Split.{starts_with}
use sproutboat.Control.Store.{Pair, Database}
use sproutboat.Control.Store.Deployments.{joined_key, is_referenced}

unfoldable pub hold_artifact : Pair → List Text → List Text
unfolding joined_key
hold_artifact ref in_flight = Bag.add (joined_key ref) in_flight

-- What `holdArtifact` returns.
unfoldable pub release_artifact : Pair → List Text → List Text
unfolding joined_key
release_artifact ref in_flight = Bag.delete (joined_key ref) in_flight

unfoldable pub artifact_in_flight : Pair → List Text → Bool
unfolding joined_key
artifact_in_flight ref in_flight = Bag.has (joined_key ref) in_flight

-- [a-f0-9]
unfoldable pub is_hex : ℕ → Bool
is_hex c = (leb 97 c && leb c 102) || (leb 48 c && leb c 57)

-- /^[a-f0-9]{64}$/
unfoldable pub is_digest : Text → Bool
unfolding is_hex
is_digest s = length s == 64 && all is_hex s

-- The artifacts directory.
abbrev pub Disk : Type 0
Disk = Dict Pair (Unit {0})

pub record Collection : Type 0 where
  pub db : Database
  pub disk : Disk
  pub removed : List Text
  pub failed : List Text

unfoldable pub drop_row : Pair → Database → Database
drop_row ref db = record db { artifacts = Dict.delete ref db.artifacts }

-- One round of the loop, on an artifact that was not seen before.
unfoldable pub collect_one :
    (Text → Text) → (Pair → Bool) → List Text → Pair → Collection → Collection
unfolding artifact_in_flight is_digest is_referenced drop_row
collect_one owner_dir rm_works in_flight (owner, digest) c =
    if artifact_in_flight (owner, digest) in_flight
    then c
    else if not (is_digest digest)
    then (if Dict.has (owner, digest) c.db.artifacts
        then record c { failed = c.failed ++ digest ∷ [] }
        else c)
    else if not
        (Dict.has (owner, digest) c.db.artifacts && not (is_referenced (owner, digest) c.db))
    then c
    else if rm_works (owner_dir owner, digest)
    then record c {
      db = drop_row (owner, digest) c.db;
      disk = Dict.delete (owner_dir owner, digest) c.disk;
      removed = c.removed ++ digest ∷ [];
    }
    else record c { db = drop_row (owner, digest) c.db; failed = c.failed ++ digest ∷ [] }

unfoldable pub collect_unseen :
    (Text → Text) → (Pair → Bool) → List Text → List Text → List Pair → Collection → Collection
unfolding collect_one joined_key
collect_unseen owner_dir rm_works in_flight seen [] c = c
collect_unseen owner_dir rm_works in_flight seen (ref ∷ refs) c =
    let next = collect_one owner_dir rm_works in_flight ref c in
    collect_unseen owner_dir rm_works in_flight (Bag.add (joined_key ref) seen) refs
      (if Bag.has (joined_key ref) seen then c else next)

-- `collectArtifacts`, up to the sweep that follows it.
unfoldable pub collect_artifacts :
    (Text → Text) → (Pair → Bool) → List Text → List Pair → Database → Disk → Collection
unfolding collect_unseen
collect_artifacts owner_dir rm_works in_flight refs db disk =
    collect_unseen owner_dir rm_works in_flight [] refs
      (record { db = db; disk = disk; removed = []; failed = [] })

-- An entry of a directory, with the time of its change (`none` where `stat` fails).
abbrev pub Entry : Type 0
Entry = Text × Option ℕ

-- `!info || info.mtimeMs > cutoff` leaves the entry.
unfoldable pub is_old : ℕ → ℕ → Option ℕ → Bool
is_old clock age none = false
is_old clock age (some changed) = leb (changed + age) clock

-- /^[a-f0-9]{32}-[a-f0-9]{64}$/
unfoldable pub is_broker_name : Text → Bool
unfolding is_hex is_digest
is_broker_name name =
    length name == 97
    && (all is_hex (first 32 name)
        && (text_eq (first 1 (slice 32 name)) (codes "-") && is_digest (slice 33 name)))

-- `held`: an artifact row for the name's digest and owner directory.
unfoldable pub is_held : (Text → Text) → Text → Database → Bool
is_held owner_dir name db =
    Dict.exists
      (λ ref _. text_eq ref.1 (slice 33 name) && text_eq (owner_dir ref.0) (first 32 name))
      db.artifacts

-- The names that `sweepBrokerStateLocked` removes.
unfoldable pub sweep_broker_state :
    (Text → Text) → (Text → Bool) → ℕ → Database → List Entry → List Text
unfolding is_broker_name is_held is_old
sweep_broker_state owner_dir rm_works clock db entries =
    map (λ entry. entry.0)
      (keep
        (λ entry.
          (is_broker_name (entry.0) && not (is_held owner_dir (entry.0) db))
          && (is_old clock 600000 (entry.1) && rm_works (entry.0)))
        entries)

unfoldable pub sweep_uploads : (Text → Bool) → ℕ → ℕ → List Entry → List Text
unfolding is_old
sweep_uploads rm_works clock max_age entries =
    map (λ entry. entry.0)
      (keep
        (λ entry.
          starts_with (codes ".upload-") (entry.0)
          && (is_old clock max_age (entry.1) && rm_works (entry.0)))
        entries)
