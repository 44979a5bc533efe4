-- ===== src/Control/Secrets.antt =====
-- apps/control/src/secrets.ts: setting and removing a project's secrets. The cipher, the byte length
-- of a text, the limit and the clock are arguments; authorization and events are left out.
mod Tests
pub mod Limited
use sproutboat.Base.{
  ℕ, ◌*◌, Bool, true, false, ◌&&◌, ◌||◌, not, any, all, Option, none, some, List, [], ◌∷◌, length,
  ltb, leb, ◌==◌, if◌then◌else◌,
}
use sproutboat.Base.Codes.{Text, text_eq}
use sproutboat.Control.Store.{Database}
use sproutboat.Control.Store.Deployments.{project_deployments}
use sproutboat.Control.Store.Domains.{set_secret, secret_names, secret_count, delete_secret}

unfoldable pub is_upper : ℕ → Bool
is_upper c = leb 65 c && leb c 90

-- /^[A-Z][A-Z0-9_]*$/
unfoldable pub is_secret_name : Text → Bool
unfolding is_upper
is_secret_name [] = false
is_secret_name (c ∷ rest) =
    is_upper c && all (λ d. is_upper d || (leb 48 d && leb d 57 || d == 95)) rest

pub data SecretReply : Type 0 where
  bad_name : SecretReply
  not_deployed : SecretReply
  no_value : SecretReply
  value_too_long : SecretReply
  too_many_secrets : SecretReply
  set_new : SecretReply
  updated : SecretReply
  not_found : SecretReply
  deleted : SecretReply

unfoldable pub max_value_bytes : ℕ
max_value_bytes = 8 * 1024

-- `!secretNames(...).includes(name)`
unfoldable pub is_new : Text → Text → Text → Database → Bool
is_new owner project name db = not (any (λ n. text_eq n name) (secret_names owner project db))

-- The write, `none` where it throws.
unfoldable pub stored : Bool → Database → Option Database → Database × Option SecretReply
stored fresh db none = (db, none)
stored fresh db (some after) = (after, some (if fresh then set_new else updated))

unfoldable pub put_secret :
    (Text → Text)
    → (Text → ℕ)
    → ℕ
    → Text
    → Text
    → Text
    → Text
    → ℕ
    → Database
    → Database × Option SecretReply
unfolding is_secret_name max_value_bytes is_new stored
put_secret encrypt byte_length max_secrets owner project name value clock db =
    if not (is_secret_name name)
    then (db, some bad_name)
    else if length (project_deployments owner project db) == 0
    then (db, some not_deployed)
    else if text_eq value []
    then (db, some no_value)
    else if ltb max_value_bytes (byte_length value)
    then (db, some value_too_long)
    else if is_new owner project name db && leb max_secrets (secret_count owner project db)
    then (db, some too_many_secrets)
    else stored (is_new owner project name db) db
        (set_secret encrypt owner project name value clock db)

unfoldable pub remove_secret : Text → Text → Text → Database → Database × SecretReply
remove_secret owner project name db =
    let (after, gone) = delete_secret owner project name db in
    (after, if gone then deleted else not_found)
