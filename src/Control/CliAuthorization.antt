-- ===== src/Control/CliAuthorization.antt =====
-- apps/control/src/cli-authorization.ts: how a CLI gets its token. The table is a map from the user
-- code; random codes and the hash are arguments; an exchange is cut where it waits for the key.
mod Tests
pub mod World
pub mod Requests
pub mod Once
use sproutboat.Base.{
  ℕ, ◌+◌, Bool, true, false, ◌||◌, not, Option, none, some, List, [], ◌∷◌, length, ltb,
  if◌then◌else◌,
}
use sproutboat.Base.Codes.{Text, text_eq, text_eq_inst}
use sproutboat.Base.Dict
use sproutboat.Base.Dict.{Dict}

pub data AuthState : Type 0 where
  pending : AuthState
  approved : AuthState
  issuing : AuthState
  issued : AuthState

pub record Authorization : Type 0 where
  pub device_hash : Text
  pub user_id : Option Text
  pub state : AuthState
  pub expires_at : ℕ
  pub token_issued_at : Option ℕ

abbrev pub Table : Type 0
Table = Dict Text Authorization

unfoldable pub active : ℕ → Authorization → Bool
active clock record0 = ltb clock record0.expires_at

unfoldable pub awaits_approval : AuthState → Bool
awaits_approval pending = true
awaits_approval _ = false

-- The row of a device code's hash, with its user code.
unfoldable pub find_device : Text → Table → Option (Text × Authorization)
find_device wanted [] = none
find_device wanted ((code, r) ∷ table) =
    let rest = find_device wanted table in
    if text_eq r.device_hash wanted then some (code, r) else rest

unfoldable pub taken : Text → Text → Table → Bool
unfolding find_device
taken code device_hash table =
    Dict.has code table || elim (find_device device_hash table) [ none ↦ false | some _ ↦ true ]

-- `createCliAuthorization`, with the pairs of codes that its (at most five) attempts draw. An
-- INSERT that meets a code or a hash that is there is tried again.
unfoldable pub create_authorization :
    (Text → Text) → ℕ → List (Text × Text) → Table → Table × Option (Text × Text)
unfolding taken
create_authorization hash clock [] table = (table, none)
create_authorization hash clock ((code, device) ∷ drawn) table =
    let again = create_authorization hash clock drawn table in
    if taken code (hash device) table then again else (
      Dict.insert code
          (record {
            device_hash = hash device;
            user_id = none;
            state = pending;
            expires_at = clock + 600000;
            token_issued_at = none;
          })
          table,
      some (code, device),
    )

pub record Actor : Type 0 where
  pub id : Text
  pub session : Bool

pub data Reply : Type 0 where
  bad_request : Reply
  sign_in : Reply
  expired : Reply
  handled : Reply
  approved_it : Reply
  still_pending : Reply
  used : Reply
  claimed : Text → Text → Reply
  token : Text → Reply
  unavailable : Reply

unfoldable pub approve_row : Text → Text → ℕ → Option Authorization → Table → Table × Reply
unfolding active awaits_approval
approve_row code user clock none table = (table, expired)
approve_row code user clock (some r) table =
    if not (active clock r)
    then (table, expired)
    else if not (awaits_approval r.state)
    then (table, handled)
    else (Dict.insert code (record r { user_id = some user; state = approved }) table, approved_it)

unfoldable pub approve_authorization : Option Actor → Text → ℕ → Table → Table × Reply
unfolding approve_row
approve_authorization none code clock table = (table, sign_in)
approve_authorization (some actor) code clock table =
    if not actor.session
    then (table, sign_in)
    else approve_row code actor.id clock (Dict.get code table) table

-- The claim: `approved` becomes `issuing` before the key is asked for.
unfoldable pub claim : Text → Authorization → AuthState → Option Text → Table → Table × Reply
claim code r pending user table = (table, still_pending)
claim code r approved (some (c ∷ user)) table =
    (Dict.insert code (record r { state = issuing }) table, claimed code (c ∷ user))
claim code r _ _ table = (table, used)

unfoldable pub exchange_row : ℕ → Option (Text × Authorization) → Table → Table × Reply
unfolding claim active
exchange_row clock none table = (table, expired)
exchange_row clock (some (code, r)) table =
    if not (active clock r) then (table, expired) else claim code r r.state r.user_id table

unfoldable pub begin_exchange : (Text → Text) → Option Text → ℕ → Table → Table × Reply
unfolding exchange_row find_device
begin_exchange hash none clock table = (table, bad_request)
begin_exchange hash (some device) clock table =
    if ltb (length device) 32
    then (table, bad_request)
    else exchange_row clock (find_device (hash device) table) table

-- How the creation of the key ends: with a key, with none, with a key and a failure of the UPDATE
-- that notes it, or with a key and a failure after it was noted.
pub data KeyResult : Type 0 where
  key : Text → KeyResult
  no_key : KeyResult
  key_unnoted : KeyResult
  key_lost : KeyResult

unfoldable pub set_issued : Text → ℕ → Table → Table
set_issued code clock table = elim (Dict.get code table) [
  | none ↦ table
  | some r ↦ Dict.insert code (record r { state = issued; token_issued_at = some clock }) table
]

unfoldable pub reopened : Authorization → AuthState → Authorization
reopened r issuing = record r { state = approved }
reopened r _ = r

unfoldable pub set_reopened : Text → Table → Table
unfolding reopened
set_reopened code table = elim (Dict.get code table) [
  | none ↦ table
  | some r ↦ Dict.insert code (reopened r r.state) table
]

unfoldable pub end_exchange : Text → ℕ → KeyResult → Table → Table × Reply
unfolding set_issued set_reopened
end_exchange code clock (key value) table = (set_issued code clock table, token value)
end_exchange code clock no_key table = (set_reopened code table, unavailable)
end_exchange code clock key_unnoted table = (set_reopened code table, unavailable)
end_exchange code clock key_lost table =
    (set_reopened code (set_issued code clock table), unavailable)
