-- ===== src/TemplateController.antt =====
-- internal/controller/latitudemachinetemplate_controller.go: a controller that does nothing.
use cluster_api_provider_lat.Action.{Action, pure}
use cluster_api_provider_lat.Api.{NamespacedName}
use cluster_api_provider_lat.MachineController.Reconcile.{CtrlResult, requeue}

unfoldable pub reconcile : {W : Type 0} → NamespacedName → Action W CtrlResult
reconcile req = pure (requeue 0)
