-- ===== src/Supervisor/BrokerArgs.antt =====
-- services/supervisor/src/run.ts, `brokerArgs`: the command line of a broker. The printing of a
-- number, `join`, `resolve`, `JSON.stringify` and the path of the running program are arguments.
mod Tests
use sproutboat.Base.{
  ℕ, Bool, true, false, ◌&&◌, not, Option, none, some, List, [], ◌∷◌, ◌++◌, length, ltb, ◌==◌,
  if◌then◌else◌,
}
use sproutboat.Base.Dict.{Dict}
use sproutboat.Supervisor.Pool.State.{R2Runtime}
use Prim.Native.String.{String}
use text.Mathlib.Text.{◌==◌ as str_eq}

pub record BrokerOptions : Type 0 where
  pub entry : String
  pub broker_port : ℕ
  pub transfer_port : Option ℕ
  pub secret : String
  pub state_dir : String
  pub resource_dir : String
  pub bindings_path : String
  pub sprout_port : ℕ
  pub r2 : Option R2Runtime
  pub r2_quota_bytes : Option ℕ
  pub r2_min_free_bytes : Option ℕ
  pub secrets_path : Option String
  pub assets_dir : Option String
  pub services : Option (Dict String String)
  pub edge_url : Option String
  pub do_db : Option String
  pub dispatch_disabled : Bool

-- A flag with a text, left out when the text is missing or empty.
unfoldable pub text_flag : String → Option String → List String
text_flag flag none = []
text_flag flag (some value) = if str_eq value "" then [] else flag ∷ value ∷ []

module _ (decimal : ℕ → String) (join : List String → String) (resolve : String → String → String)
    (json : Dict String String → String) (sprout_url : ℕ → String) (exec_path : String) where
  -- A flag with a number, left out when the number is missing or 0.
  unfoldable pub number_flag : String → Option ℕ → List String
  number_flag flag none = []
  number_flag flag (some value) = if value == 0 then [] else flag ∷ decimal value ∷ []

  unfoldable pub r2_flags : BrokerOptions → Option R2Runtime → List String
  unfolding number_flag
  r2_flags opts none = []
  r2_flags opts (some r2) =
      "--owner-id" ∷ r2.owner_id ∷ "--r2-resource-ids" ∷ join r2.resource_ids ∷ []
      ++ number_flag "--r2-quota-bytes" opts.r2_quota_bytes
      ++ number_flag "--r2-min-free-bytes" opts.r2_min_free_bytes

  unfoldable pub service_flags : Option (Dict String String) → Option String → List String
  service_flags none url = []
  service_flags (some services) none = []
  service_flags (some services) (some url) =
      if ltb 0 (length services) && not (str_eq url "")
      then "--services" ∷ json services ∷ "--edge-url" ∷ url ∷ []
      else []

  unfoldable pub broker_args : BrokerOptions → List String
  unfolding number_flag r2_flags service_flags text_flag
  broker_args opts =
      (exec_path
        ∷ "--smol"
        ∷ opts.entry
        ∷ "--port"
        ∷ decimal opts.broker_port
        ∷ "--token"
        ∷ opts.secret
        ∷ "--db"
        ∷ resolve opts.state_dir "state.sqlite"
        ∷ "--data-dir"
        ∷ resolve opts.state_dir "d1"
        ∷ "--resource-dir"
        ∷ opts.resource_dir
        ∷ "--bindings"
        ∷ opts.bindings_path
        ∷ "--sprout-url"
        ∷ sprout_url opts.sprout_port
        ∷ [])
      ++ number_flag "--transfer-port" opts.transfer_port
      ++ r2_flags opts opts.r2
      ++ text_flag "--secrets" opts.secrets_path
      ++ service_flags opts.services opts.edge_url
      ++ text_flag "--assets-dir" opts.assets_dir
      ++ text_flag "--do-db" opts.do_db
      ++ (if opts.dispatch_disabled then "--dispatch-disabled" ∷ [] else [])
