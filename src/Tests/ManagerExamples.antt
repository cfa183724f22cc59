-- ===== src/Tests/ManagerExamples.antt =====
-- The start of the process at concrete inputs.
use cluster_api_provider_lat.Base.{String, ◌≡◌, refl, ◌==◌, string_eq, if◌then◌else◌}
use cluster_api_provider_lat.Go.Errors.{plain}
use cluster_api_provider_lat.Action.{pure, fail}
use cluster_api_provider_lat.Latitude.Client.Setup.{new_client}
use cluster_api_provider_lat.Manager.{going, exited, Flags, Runtime}
use cluster_api_provider_lat.Manager.Main.{
  default_flags, main, with_manager, register_controllers, serve,
}
use cluster_api_provider_lat.Manager.Order.{
  IsOrderly, all_requests, expected_options, boot, key, main_order,
}
use cluster_api_provider_lat.Tests.Fixtures.{Nothing}

-- A runtime in which the health check cannot be added. The SDK is its key.
abbrev a_runtime : Runtime Nothing Nothing Nothing String
a_runtime = record {
  getenv = λ name. if name == "LATITUDE_API_KEY" then "k" else "";
  add_to_scheme = λ part. pure tt;
  parse_flags = λ flags w. (going (record flags { watch_namespace = "prod" }), w);
  get_config_or_die = λ w. (going tt, w);
  new_manager = λ config options. pure tt;
  sdk_new = λ k timeout. k;
  complete = λ manager registration. pure tt;
  add_healthz_check = λ manager name. fail (plain "no port");
  add_readyz_check = λ manager name. pure tt;
  start = λ manager. pure tt;
}

abbrev some_flags : Flags
some_flags = record default_flags { watch_namespace = "prod" }

main_order_example :
    IsOrderly a_runtime
      (all_requests (a_runtime.sdk_new (key a_runtime) 60) (expected_options a_runtime some_flags))
      (main a_runtime (boot a_runtime tt))
main_order_example = main_order a_runtime tt some_flags tt refl refl

stops_at_check : (main a_runtime (boot a_runtime tt)).0 ≡ exited 1
unfolding main with_manager register_controllers serve new_client
stops_at_check = refl
