-- ===== src/Control/CliAuthorization/World.antt =====
-- apps/control/src/cli-authorization.ts: the requests of an authorization as steps, the keys that
-- they make, and the invariant of both.
use sproutboat.Base.{ℕ, ◌≡◌, ◌≢◌, sym, false, Option, some, List, [], ◌∷◌, inl, inr, Bool-cases}
use mathlib.Core.Path.{subst}
use sproutboat.Base.Codes.{Text, text_eq, text_eq_iff, text_eq_inst}
use sproutboat.Base.Dict
use sproutboat.Base.Dict.{Dict, get-insert, get-insert_self, get-delete, insert-Unique}
use sproutboat.Control.CliAuthorization.{
  AuthState, issuing, issued, Authorization, Table, create_authorization, Actor, Reply, claimed,
  approve_authorization, begin_exchange, KeyResult, key, no_key, key_unnoted, end_exchange,
}

-- The table, the exchanges that wait for their key, each with its user, and by their code and user
-- the keys that were noted as issued and the tokens that were handed out.
pub record World : Type 0 where
  pub table : Table
  pub waiting : Dict Text Text
  pub keys : Dict Text Text
  pub tokens : Dict Text Text

-- An exchange that was claimed waits for its key.
abbrev pub note_claim : Reply → Dict Text Text → Dict Text Text
note_claim (claimed code user) waiting = (code, user) ∷ waiting
note_claim _ waiting = waiting

abbrev pub note_key : KeyResult → Text → Text → Dict Text Text → Dict Text Text
note_key no_key code user keys = keys
note_key key_unnoted code user keys = keys
note_key _ code user keys = (code, user) ∷ keys

abbrev pub note_token : KeyResult → Text → Text → Dict Text Text → Dict Text Text
note_token (key value) code user tokens = (code, user) ∷ tokens
note_token _ code user tokens = tokens

pub data Step (w : World) : World → Type 0 where
  created :
      (hash : Text → Text) (clock : ℕ) (drawn : List (Text × Text))
      → Step w (record w { table = (create_authorization hash clock drawn w.table).0 })
  decided :
      (actor : Option Actor) (code : Text) (clock : ℕ)
      → Step w (record w { table = (approve_authorization actor code clock w.table).0 })
  began :
      (hash : Text → Text) (device : Option Text) (clock : ℕ)
      → Step w (record w {
        table = (begin_exchange hash device clock w.table).0;
        waiting = note_claim (begin_exchange hash device clock w.table).1 w.waiting;
      })
  ended :
      (code user : Text) (clock : ℕ) (result : KeyResult)
      → Dict.get code w.waiting ≡ some user
      → Step w (record {
        table = (end_exchange code clock result w.table).0;
        waiting = Dict.delete code w.waiting;
        keys = note_key result code user w.keys;
        tokens = note_token result code user w.tokens;
      })

pub data Reach (w : World) : World → Type 0 where
  here : Reach w w
  next : {x y : World} → Reach w x → Step x y → Reach w y

abbrev pub In : AuthState → Text → Text → Table → Type 0
In state code user table =
    (r : Authorization) × (Dict.get code table ≡ some r)
    × (r.state ≡ state)
    × (r.user_id ≡ some user)

pub record IsOnce (w : World) : Type 0 where
  pub unique : Dict.Unique w.table
  pub waits :
      (code user : Text) → Dict.get code w.waiting ≡ some user → In issuing code user w.table
  pub made : (code user : Text) → Dict.get code w.keys ≡ some user → In issued code user w.table
  pub once : Dict.Unique w.keys
  pub handed :
      (code user : Text) → Dict.get code w.tokens ≡ some user → Dict.get code w.keys ≡ some user
  pub once_handed : Dict.Unique w.tokens

-- A change at a code that is neither issuing nor issued keeps every claim and every key.
pub other_code :
    (state : AuthState) (code j user : Text) (r : Authorization) (table : Table)
    → text_eq code j ≡ false
    → In state j user table
    → In state j user (Dict.insert code r table)
other_code state code j user r table ne (s, at, st, u) =
    (s, rw (get-insert code j r table, ne) at, st, u)

pub keeps :
    (state : AuthState) (code j user : Text) (r : Authorization) (table : Table)
    → ((s : Authorization) → Dict.get code table ≡ some s → s.state ≢ state)
    → In state j user table
    → In state j user (Dict.insert code r table)
keeps state code j user r table free (s, at, st, u) = elim (Bool-cases (text_eq code j)) [
  | inl same ↦
      absurd
        (free s (subst (λ k. Dict.get k table ≡ some s) (sym ((text_eq_iff code j).0 same)) at) st)
  | inr ne ↦ other_code state code j user r table ne (s, at, st, u)
]

pub keeps-IsOnce :
    (code : Text) (r : Authorization) (w : World)
    → ((s : Authorization)
        → Dict.get code w.table ≡ some s
        → (s.state ≢ issuing) × (s.state ≢ issued))
    → IsOnce w
    → IsOnce (record w { table = Dict.insert code r w.table })
keeps-IsOnce code r w free v = record {
  unique = insert-Unique code r w.table v.unique;
  waits =
      λ j user h. keeps issuing code j user r w.table (λ s at. (free s at).0) (v.waits j user h);
  made = λ j user h. keeps issued code j user r w.table (λ s at. (free s at).1) (v.made j user h);
  once = v.once;
  handed = v.handed;
  once_handed = v.once_handed;
}

abbrev pub no_world : World
no_world = record { table = []; waiting = []; keys = []; tokens = [] }
