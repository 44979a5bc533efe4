-- ===== src/Supervisor/BrokerArgs/Tests.antt =====
-- services/supervisor/src/run.ts, `brokerArgs`: runs.
use sproutboat.Base.{ℕ, ◌≡◌, refl, false, none, some, List, [], ◌∷◌}
use Prim.Native.String.{String}
use sproutboat.Supervisor.BrokerArgs.{
  BrokerOptions, text_flag, number_flag, r2_flags, service_flags, broker_args,
}

abbrev plain : BrokerOptions
plain = record {
  entry = "broker.ts";
  broker_port = 1;
  transfer_port = some 0;
  secret = "t";
  state_dir = "/s";
  resource_dir = "/r";
  bindings_path = "/b";
  sprout_port = 2;
  r2 = none;
  r2_quota_bytes = some 5;
  r2_min_free_bytes = none;
  secrets_path = some "";
  assets_dir = none;
  services = some [];
  edge_url = some "http://127.0.0.1/";
  do_db = none;
  dispatch_disabled = false;
}

abbrev printed : ℕ → String
printed n = "n"

abbrev command : BrokerOptions → List String
command =
    broker_args printed (λ ids. "ids") (λ dir name. name) (λ services. "{}") (λ port. "url") "bun"

command_tests :
    (command plain
      ≡ "bun" ∷ "--smol" ∷ "broker.ts" ∷ "--port" ∷ "n" ∷ "--token" ∷ "t" ∷ "--db" ∷ "state.sqlite"
        ∷ "--data-dir" ∷ "d1" ∷ "--resource-dir" ∷ "/r" ∷ "--bindings" ∷ "/b" ∷ "--sprout-url"
        ∷ "url" ∷ [])
    × (service_flags printed
          (λ ids. "ids")
          (λ dir name. name)
          (λ services. "{}")
          (λ port. "url")
          "bun"
          (some (("A", "a.test") ∷ []))
          plain.edge_url
        ≡ "--services" ∷ "{}" ∷ "--edge-url" ∷ "http://127.0.0.1/" ∷ [])
unfolding text_flag number_flag r2_flags service_flags broker_args
command_tests = (refl, refl)
