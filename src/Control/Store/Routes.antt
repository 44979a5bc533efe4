-- ===== src/Control/Store/Routes.antt =====
-- apps/control/src/store.ts: the hosts of a project, and the snapshot of routes that the edge
-- serves. sha256 and JSON.stringify are arguments, and so is what a deployment's bindings.json
-- parses to (`none` where it is missing or no JSON). The secrets directory is a map from the
-- file's name; its entries are written one after the other.
use sproutboat.Base.{
  ℕ, Bool, ◌&&◌, not, any, leb, ◌==◌, Option, none, some, List, [], ◌∷◌, ◌++◌, map, if◌then◌else◌,
  pair_eq,
}
use sproutboat.Base.Codes.{Text, codes, text_eq, text_eq_inst}
use sproutboat.Base.Bag.{collect}
use sproutboat.Base.Dict
use sproutboat.Base.Dict.{Dict}
use sproutboat.Base.Json.{Json, as_array, as_string, at_key}
use sproutboat.Base.Order.{sort, first, text_leb}
use sproutboat.Control.Store.{
  Pair, Deployment, CustomDomain, r2, StorageResource, Database, belongs,
}
use sproutboat.Control.Store.Deployments.{joined_key}
use sproutboat.Control.Store.Domains.{is_verified, project_secret_values}
use sproutboat.Control.Store.Resources.{owner_resources}

unfoldable pub project_hosts : Text → Text → Database → List Text
unfolding belongs is_verified
project_hosts owner project db =
    let generated =
      collect (λ _ d. belongs owner project d && d.active) (λ _ d. d.hostname) db.deployments in
    sort text_leb (
      collect
        (λ key domain.
          (text_eq key.1 owner && text_eq domain.project project) && is_verified domain)
        (λ key _. key.0) db.custom_domains (generated []))

-- A host with its sprout's path, and the owner with the project.
abbrev pub RouteRow : Type 0
RouteRow = Pair × Pair

abbrev pub row_of : Text → Deployment → RouteRow
row_of hostname d = ((hostname, d.sprout_path), (d.owner_id, d.project))

abbrev pub is_banned : Text → Database → Bool
is_banned owner db = Dict.has owner db.banned_owners

-- The active versions of a verified domain's project.
unfoldable pub points_at : Pair → CustomDomain → Deployment → Bool
unfolding belongs
points_at key domain d = belongs key.1 domain.project d && d.active

unfoldable pub serves : Database → Pair → CustomDomain → Bool
unfolding is_verified
serves db key domain = is_verified domain && not (is_banned key.1 db)

unfoldable pub domain_rows : Database → Dict Pair CustomDomain → List RouteRow → List RouteRow
unfolding points_at serves
domain_rows db [] rest = rest
domain_rows db ((key, domain) ∷ domains) rest =
    let rows = domain_rows db domains rest in
    if serves db key domain
    then collect (λ _ d. points_at key domain d) (λ _ d. row_of key.0 d) db.deployments rows
    else rows

-- The rows of `writeRouteSnapshot`.
unfoldable pub route_rows : Database → List RouteRow
unfolding domain_rows
route_rows db =
    sort (λ x y. text_leb x.0.0 y.0.0)
      (domain_rows db db.custom_domains (
        collect (λ _ d. d.active && not (is_banned d.owner_id db)) (λ _ d. row_of d.hostname d)
          db.deployments []))

-- `declaredServices`
unfoldable pub service_of : Json → List Pair
service_of entry = elim (as_string (at_key (codes "binding") (some entry))) [
  | none ↦ []
  | some binding ↦ elim (as_string (at_key (codes "service") (some entry))) [
    | none ↦ []
    | some service ↦ (binding, service) ∷ []
  ]
]

unfoldable pub services_of : List Json → List Pair
unfolding service_of
services_of [] = []
services_of (entry ∷ entries) = service_of entry ++ services_of entries

unfoldable pub declared_services : Option Json → List Pair
unfolding services_of
declared_services parsed = elim (as_array (at_key (codes "services") parsed)) [
  | none ↦ []
  | some entries ↦ services_of entries
]

unfoldable pub active_hosts : Dict Text Text → Dict Text Deployment → Dict Text Text
unfolding joined_key
active_hosts hosts [] = hosts
active_hosts hosts ((_, d) ∷ rows) =
    active_hosts
      (if d.active
        then Dict.insert (joined_key (d.owner_id, d.project)) d.hostname hosts
        else hosts)
      rows

unfoldable pub resolved_services :
    Text → Dict Text Text → List Pair → Dict Text Text → Dict Text Text
unfolding joined_key
resolved_services owner hosts [] services = services
resolved_services owner hosts ((binding, service) ∷ rest) services =
    elim (Dict.get (joined_key (owner, service)) hosts) [
      | none ↦ resolved_services owner hosts rest services
      | some host ↦
          resolved_services owner hosts rest
            (if text_eq host [] then services else Dict.insert binding host services)
    ]

-- A character that `secretsFile` keeps: [A-Za-z0-9_-]
unfoldable pub is_file_char : ℕ → Bool
is_file_char c =
    any (λ x. x)
      ((leb 65 c && leb c 90)
        ∷ (leb 97 c && leb c 122)
        ∷ (leb 48 c && leb c 57)
        ∷ (c == 95)
        ∷ (c == 45)
        ∷ [])

unfoldable pub secrets_file : Pair → Text
unfolding is_file_char
secrets_file (owner, project) =
    map (λ c. if is_file_char c then c else 95) (owner ++ codes "__" ++ project) ++ codes ".json"

unfoldable pub r2_ids : Dict Text StorageResource → List Text
r2_ids [] = []
r2_ids ((id, r) ∷ rows) = elim (r.kind) [ r2 ↦ id ∷ r2_ids rows | _ ↦ r2_ids rows ]

pub record RouteEntry : Type 0 where
  pub hostname : Text
  pub sprout_path : Text
  pub secrets : Option Pair
  pub services : Dict Text Text
  pub owner_id : Text
  pub r2_resource_ids : List Text
  pub do_store_id : Text

-- The closure's cache of the files that are written, and the directory.
pub record SecretFiles : Type 0 where
  pub written : Dict Text (Option Pair)
  pub files : Dict Text Text

pub record Printing : Type 0 where
  pub sha256_hex : Text → Text
  pub stringify : Dict Text Text → Text
  pub decrypt : Text → Text
  pub bindings_json : Text → Option Json

abbrev pub by_key : Dict Text Text → Dict Text Text
by_key = sort (λ x y. text_leb x.0 y.0)

unfoldable pub write_secrets : Printing → Database → Pair → SecretFiles → SecretFiles
unfolding project_secret_values secrets_file joined_key
write_secrets io db (owner, project) s =
    let key = joined_key (owner, project) in
    let path = secrets_file (owner, project) in
    if Dict.has key s.written then s else elim (project_secret_values io.decrypt owner project db) [
      | [] ↦ record s { written = Dict.insert key none s.written; files = Dict.delete path s.files }
      | value ∷ values ↦
          let content = io.stringify (by_key (value ∷ values)) in
          record s {
            written = Dict.insert key (some (path, first 16 (io.sha256_hex content))) s.written;
            files = Dict.insert path content s.files;
          }
    ]

-- `context.entry`
unfoldable pub route_entry : Printing → Database → RouteRow → SecretFiles → SecretFiles × RouteEntry
unfolding write_secrets declared_services active_hosts resolved_services r2_ids joined_key
route_entry io db ((hostname, path), (owner, project)) s =
    let after = write_secrets io db (owner, project) s in
    (
      after,
      record {
        hostname = hostname;
        sprout_path = path;
        secrets = elim (Dict.get (joined_key (owner, project)) after.written) [
          | none ↦ none
          | some info ↦ info
        ];
        services =
            resolved_services owner (active_hosts [] db.deployments)
              (declared_services (io.bindings_json path)) [];
        owner_id = owner;
        r2_resource_ids = r2_ids (owner_resources owner db);
        do_store_id = codes "do_" ++ first 24 (io.sha256_hex (joined_key (owner, project)));
      },
    )

unfoldable pub route_entries :
    Printing → Database → List RouteRow → SecretFiles → SecretFiles × List RouteEntry
unfolding route_entry
route_entries io db [] s = (s, [])
route_entries io db (row ∷ rows) s =
    let (s1, entry) = route_entry io db row s in
    let (s2, entries) = route_entries io db rows s1 in (s2, entry ∷ entries)

-- A snapshot begins with empty caches.
unfoldable pub write_route_snapshot :
    Printing → Database → Dict Text Text → Dict Text Text × List RouteEntry
unfolding route_rows route_entries
write_route_snapshot io db files =
    let (after, routes) =
      route_entries io db (route_rows db) (record { written = []; files = files }) in
    (after.files, routes)

unfoldable pub candidate_route :
    Printing → Deployment → Database → Dict Text Text → Dict Text Text × RouteEntry
unfolding route_entry
candidate_route io d db files =
    let (after, entry) =
      route_entry io db (row_of d.hostname d) (record { written = []; files = files }) in
    (after.files, entry)
