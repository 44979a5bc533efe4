-- ===== src/Control/Secrets/Tests.antt =====
-- apps/control/src/secrets.ts: runs of the secrets, and the theorem at an input.
use sproutboat.Base.{ℕ, ◌≤◌, ◌≡◌, refl, false, Option, none, some, [], length, arith, pair_eq}
use sproutboat.Base.Codes.{Text, codes, text_eq, text_eq_inst}
use sproutboat.Base.Dict
use sproutboat.Base.Order.{put, sort, text_leb}
use sproutboat.Control.Store.{
  Database, belongs, insert_new, meets_active, insert_deployment, set_inactive,
}
use sproutboat.Control.Store.Deployments.{project_deployments, link_resources, record_deployment}
use sproutboat.Control.Store.Domains.{
  set_secret, project_secrets, secret_names, secret_count, delete_secret,
}
use sproutboat.Control.Store.Releases.{tables}
use sproutboat.Control.Store.Reach.{no_rows}
use sproutboat.Control.Secrets.{
  is_upper, is_secret_name, max_value_bytes, is_new, stored, put_secret, remove_secret, bad_name,
  no_value, too_many_secrets, set_new, updated, deleted,
}
use sproutboat.Control.Secrets.Limited.{here, next, secret_put, Reach-secret_count}

secrets : Unit {0}
unfolding belongs insert_new meets_active insert_deployment set_inactive project_deployments
    link_resources record_deployment set_secret project_secrets secret_names secret_count
    delete_secret is_upper is_secret_name max_value_bytes is_new stored put_secret remove_secret put
    sort text_leb Dict.get Dict.has Dict.insert Dict.delete Dict.filter Dict.update Dict.exists
    text_eq
secrets = tt

abbrev owner : Text
owner = codes "a"

abbrev app : Text
app = codes "p"

abbrev kept_tables : Option Database → Database
kept_tables none = no_rows
kept_tables (some db) = db

abbrev one_version : Database
one_version = kept_tables (
    tables (
      record_deployment (codes "1")
        (record {
          owner_id = owner;
          project = app;
          username = owner;
          hostname = codes "p.a.b.co";
          artifact = codes "d";
          sprout_path = codes "s";
          deployed_at = 10;
          active = false;
          binary_size = none;
          compile_ms = none;
        })
        [] no_rows))

abbrev plain : Text → Text
plain s = s

abbrev bytes : Text → ℕ
bytes s = length s

abbrev one_secret : Database
one_secret = (put_secret plain bytes 1 owner app (codes "KEY_1") (codes "v") 20 one_version).0

abbrev refused_second : Database
refused_second = (put_secret plain bytes 1 owner app (codes "KEY_2") (codes "v") 30 one_secret).0

secret_tests :
    ((put_secret plain bytes 1 owner app (codes "KEY_1") (codes "v") 20 one_version).1
      ≡ some set_new)
    × ((put_secret plain bytes 1 owner app (codes "KEY_1") (codes "w") 30 one_secret).1
        ≡ some updated)
    × ((put_secret plain bytes 1 owner app (codes "KEY_2") (codes "v") 30 one_secret).1
        ≡ some too_many_secrets)
    × ((put_secret plain bytes 1 owner app (codes "1KEY") (codes "v") 30 one_secret).1
        ≡ some bad_name)
    × ((put_secret plain bytes 1 owner app (codes "KEY") [] 30 one_secret).1 ≡ some no_value)
    × ((remove_secret owner app (codes "KEY_1") one_secret).1 ≡ deleted)
unfolding secrets
secret_tests = (refl, refl, refl, refl, refl, refl)

none_yet : secret_count owner app one_version ≡ 0
unfolding secrets
none_yet = refl

Reach-secret_count_example : secret_count owner app refused_second ≤ 1
Reach-secret_count_example =
    Reach-secret_count plain bytes 1 owner app
      (next (next here (secret_put owner app (codes "KEY_1") (codes "v") 20))
        (secret_put owner app (codes "KEY_2") (codes "v") 30))
      (omega (arith, none_yet))
