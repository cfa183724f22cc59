-- ===== src/MachineController/Patching.antt =====
-- The deferred patch of a run.
use mathlib.Core.Path.{subst}
use cluster_api_provider_lat.Base.{
  true, false, Option, none, some, List, [], ◌∷◌, ◌≡◌, ◌⊎◌, inl, inr, arith, sym,
}
use cluster_api_provider_lat.Action.{Action, Outcome, ok, is_ok, Outcome-ok_cases}
use cluster_api_provider_lat.Api.{NamespacedName, LatitudeMachine}
use cluster_api_provider_lat.Kube.{Kube}
use cluster_api_provider_lat.Latitude.{ClientInterface}
use cluster_api_provider_lat.World.{Call}
use cluster_api_provider_lat.MachineController.Server.{Machines}
use cluster_api_provider_lat.MachineController.Reconcile

-- Either the run never held a machine and called nothing; or its last call is a patch with the
-- machine that it leaves, and this patch has succeeded if the run returns no error.
pub data IsPatched {W : Type 0} (kube : Kube W) (r : Outcome Reconcile.CtrlResult)
    : Option LatitudeMachine → List Call → Type 0 where
  unheld : IsPatched kube r none []
  patched :
      {m : LatitudeMachine} (before : LatitudeMachine) (w : W) (earlier : List Call)
      → (is_ok r ≡ false) ⊎ (is_ok (kube.patch_machine before m w).0 ≡ true)
      → IsPatched kube r (some m) (Call.patch_machine m ∷ earlier)

module _ {W : Type 0} (kube : Kube W) (client : ClientInterface W) where
  with_deferred_patch-IsPatched :
      (before : LatitudeMachine) (body : Action (Machines W) Reconcile.CtrlResult) (s : Machines W)
      → let (r, s') = Reconcile.with_deferred_patch kube client before body s in
        IsPatched kube r (some s'.object) s'.trace
  unfolding Reconcile.with_deferred_patch
  with_deferred_patch-IsPatched before body s =
      let s' = (body s).1 in patched before s'.outside s'.trace (ground arith)

  reconcile_held :
      (req : NamespacedName) (w : W) (m : LatitudeMachine)
      → let (found, w1) = kube.get_latitude_machine req w in
        found ≡ ok m
        → let (helper, w2) = kube.new_machine_helper m w1 in
          helper ≡ ok tt
          → Reconcile.reconcile kube client req w
            ≡ Reconcile.with_object kube client (
                Reconcile.with_deferred_patch kube client m
                  (Reconcile.dispatch kube client m)
                  (Reconcile.started kube client w2 m))
  unfolding Reconcile.reconcile
  reconcile_held req w m found made = ground (arith, found, made)

  reconcile_unfound :
      (req : NamespacedName) (w : W)
      → is_ok (kube.get_latitude_machine req w).0 ≡ false
      → let (r, s) = Reconcile.reconcile kube client req w in (s.object ≡ none) × (s.trace ≡ [])
  unfolding Reconcile.reconcile
  reconcile_unfound req w h = ground arith

  reconcile_unheld :
      (req : NamespacedName) (w : W) (m : LatitudeMachine)
      → (kube.get_latitude_machine req w).0 ≡ ok m
      → is_ok (kube.new_machine_helper m (kube.get_latitude_machine req w).1).0 ≡ false
      → let (r, s) = Reconcile.reconcile kube client req w in (s.object ≡ none) × (s.trace ≡ [])
  unfolding Reconcile.reconcile
  reconcile_unheld req w m found h = ground arith

  unheld_of :
      (r : Outcome Reconcile.CtrlResult) (o : Option LatitudeMachine) (calls : List Call)
      → (o ≡ none) × (calls ≡ [])
      → IsPatched kube r o calls
  unheld_of r o calls (h, k) = rw h (rw k unheld)

  -- A run that holds the machine ends, also after an error or a panic, with a patch of the machine
  -- as the run leaves it, and returns no error only if this patch has succeeded. A run that does
  -- not come to hold it calls nothing.
  pub reconcile-IsPatched :
      (req : NamespacedName) (w : W)
      → let (r, s) = Reconcile.reconcile kube client req w in IsPatched kube r s.object s.trace
  reconcile-IsPatched req w =
      let (found, w1) = kube.get_latitude_machine req w in
      elim (Outcome-ok_cases found) [
        | inr failed ↦ unheld_of _ _ _ (reconcile_unfound req w failed)
        | inl (m, is_found) ↦ elim (Outcome-ok_cases (kube.new_machine_helper m w1).0) [
          | inr failed ↦ unheld_of _ _ _ (reconcile_unheld req w m is_found failed)
          | inl (u, made) ↦
              subst (λ p. IsPatched kube p.0 p.1.object p.1.trace)
                (sym (reconcile_held req w m is_found made))
                (with_deferred_patch-IsPatched m (Reconcile.dispatch kube client m)
                  (Reconcile.started kube client (kube.new_machine_helper m w1).1 m))
        ]
      ]
