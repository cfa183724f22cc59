-- ===== src/Go/Errors.antt =====
-- Error values: `errors.New`, `fmt.Errorf` with and without `%w`, `errors.Is` and the test
-- `apierrors.IsNotFound`, which looks through wrapped errors.
use cluster_api_provider_lat.Base.{String, ◌<>◌, Bool, true, false}

-- `plain` is any error that the code makes or gets and does not classify; `not_found` is the API
-- server's answer that an object is missing; `bootstrap_data_not_ready` is the sentinel of the
-- scope package; `wrapped` is `fmt.Errorf("<prefix>: %w", e)`.
pub data Error : Type 0 where
  plain : String → Error
  not_found : String → Error
  bootstrap_data_not_ready : Error
  wrapped : String → Error → Error

-- `err.Error()`
unfoldable pub error_text : Error → String
error_text (plain s) = s
error_text (not_found s) = s
error_text bootstrap_data_not_ready = "bootstrap data secret is not ready"
error_text (wrapped s e) = s <> (": " <> error_text e)

-- `apierrors.IsNotFound`
unfoldable pub is_not_found : Error → Bool
is_not_found (plain s) = false
is_not_found (not_found s) = true
is_not_found bootstrap_data_not_ready = false
is_not_found (wrapped s e) = is_not_found e

-- `errors.Is(err, scope.ErrBootstrapDataNotReady)`
unfoldable pub is_bootstrap_data_not_ready : Error → Bool
is_bootstrap_data_not_ready (plain s) = false
is_bootstrap_data_not_ready (not_found s) = false
is_bootstrap_data_not_ready bootstrap_data_not_ready = true
is_bootstrap_data_not_ready (wrapped s e) = is_bootstrap_data_not_ready e
