-- ===== src/Supervisor/Credentials.antt =====
-- services/supervisor/src/run.ts: the credentials by which a broker may call other services.
mod Tests
pub mod Calls
use sproutboat.Base.{ℕ, Bool, true, false, Option, none, some, List, [], ◌∷◌, map}
use sproutboat.Base.Codes.{Text, text_eq_inst}
use sproutboat.Base.Split.{split}
use sproutboat.Base.Bag
use sproutboat.Base.Dict
use sproutboat.Base.Dict.{Dict}

-- The hash of a credential, and the hosts it may call.
abbrev pub Credentials : Type 0
Credentials = Dict Text (List Text)

unfoldable pub first_of : List Text → Text
first_of [] = []
first_of (part ∷ parts) = part

-- `hash` is SHA-256 in hex, `lower` is `toLowerCase`.
module _ (hash lower : Text → Text) where
  unfoldable pub host_only : Text → Text
  unfolding first_of
  host_only host = lower (first_of (split 58 host))

  unfoldable pub register_credential : Text → List Text → Credentials → Credentials
  unfolding host_only
  register_credential credential hosts creds =
      Dict.insert (hash credential) (map host_only hosts) creds

  -- What `registerBindingCredential` returns.
  unfoldable pub revoke_credential : Text → Credentials → Credentials
  revoke_credential credential creds = Dict.delete (hash credential) creds

  unfoldable pub allows : Text → Option (List Text) → Bool
  unfolding host_only
  allows host none = false
  allows host (some hosts) = Bag.has (host_only host) hosts

  unfoldable pub verify_binding_call : Option Text → Text → Credentials → Bool
  unfolding allows
  verify_binding_call none host creds = false
  verify_binding_call (some []) host creds = false
  verify_binding_call (some (c ∷ credential)) host creds =
      allows host (Dict.get (hash (c ∷ credential)) creds)
