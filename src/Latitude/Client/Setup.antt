-- ===== src/Latitude/Client/Setup.antt =====
-- `NewClient` of internal/latitude/client.go.
use cluster_api_provider_lat.Base.{ℕ, String, ◌==◌, string_eq, if◌then◌else◌}
use cluster_api_provider_lat.Go.Errors.{plain}
use cluster_api_provider_lat.Action.{Outcome, ok, err}

-- Over `os.Getenv`, and `latitudeshsdk.New` with a key and a timeout in seconds. The client is the
-- SDK that it holds.
unfoldable pub new_client : {Sdk : Type 0} → (String → String) → (String → ℕ → Sdk) → Outcome Sdk
new_client getenv sdk_new =
    let api_key = getenv "LATITUDE_API_KEY" in
    if api_key == ""
    then err (plain "LATITUDE_API_KEY environment variable is required")
    else ok (sdk_new api_key 60)
