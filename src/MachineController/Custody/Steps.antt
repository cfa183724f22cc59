-- ===== src/MachineController/Custody/Steps.antt =====
-- That no server is lost in any sequence of runs and of changes from outside.
use text.Mathlib.TextEquality.{eq_iff}
use cluster_api_provider_lat.MachineController.Lookup.{get_hostname}
use cluster_api_provider_lat.MachineController.Custody.Names.{get_hostname-dispatch}
use cluster_api_provider_lat.Base.{◌&&◌, ◌==◌, Bool, true, false, ◌≡◌, inl, inr, arith, string_eq}
use cluster_api_provider_lat.Action.{Outcome, Outcome-ok_cases, ok, err, panic, is_ok}
use cluster_api_provider_lat.Api.{NamespacedName, LatitudeMachine}
use cluster_api_provider_lat.Kube.{Kube}
use cluster_api_provider_lat.Latitude.{ClientInterface}
use cluster_api_provider_lat.MachineController.Cloud.{Cloud, held, IsKept, held-IsKept}
use cluster_api_provider_lat.MachineController.Server.{Machines}
use cluster_api_provider_lat.MachineController.Reconcile
use cluster_api_provider_lat.MachineController.Custody.{IsCustody}
use cluster_api_provider_lat.MachineController.Custody.Clearing.{dispatch-IsCustody}

module _ {W : Type 0} (kube : Kube W) (client : ClientInterface W) where
  abbrev patch_after : LatitudeMachine → Machines W → Bool
  patch_after before s = is_ok (kube.patch_machine before s.object s.outside).0

  -- Whether a run reaches its last patch and the patch succeeds, or does not reach it.
  unfoldable pub ends_patched : NamespacedName → W → Bool
  ends_patched req w =
      let (found, w1) = kube.get_latitude_machine req w in
      elim found [
        | panic ↦ true
        | err e ↦ true
        | ok m ↦
            let (helper, w2) = kube.new_machine_helper m w1 in
            elim helper [
              | panic ↦ true
              | err e ↦ true
              | ok _ ↦
                  patch_after m
                    (Reconcile.dispatch kube client m (Reconcile.started kube client w2 m)).1
            ]
      ]

module _ {W : Type 0} (kube : Kube W) (client : ClientInterface W) (cloud : Cloud kube client) where
  -- Each server that runs for the machine has the recorded id.
  abbrev pub IsRecorded : W → Type 0
  IsRecorded w = held (cloud.servers w) (cloud.recorded w) ≡ true

  -- A machine that is read has the name of the account, and the recorded id.
  abbrev pub up_to_date : Outcome LatitudeMachine → W → Bool
  up_to_date (ok m) w = (get_hostname m == cloud.host) && (m.status.server_id == cloud.recorded w)
  up_to_date (err e) w = true
  up_to_date panic w = true

  -- Either a run that reads this machine up to date, if it reads any, and whose last patch succeeds,
  -- or a change from outside that takes servers away.
  pub data Step : W → W → Type 0 where
    a_run :
        (req : NamespacedName) (w : W)
        → up_to_date (kube.get_latitude_machine req w).0 w ≡ true
        → ends_patched kube client req w ≡ true
        → Step w (Reconcile.reconcile kube client req w).1.outside
    outside_change :
        {w w' : W}
        → IsKept (cloud.servers w') (cloud.servers w)
        → cloud.recorded w' ≡ cloud.recorded w
        → Step w w'

  pub data Steps : W → W → Type 0 where
    done : {w : W} → Steps w w
    later : {w w' w'' : W} → Steps w w' → Step w' w'' → Steps w w''

  last_patch-IsRecorded :
      (before : LatitudeMachine) (s : Machines W)
      → (get_hostname s.object == cloud.host) ≡ true
      → IsCustody kube client cloud s
      → patch_after kube client before s ≡ true
      → IsRecorded (kube.patch_machine before s.object s.outside).1
  last_patch-IsRecorded before s named h k = ground (arith, cloud.patch before s.object s.outside)

  found-IsCustody :
      (req : NamespacedName) (w : W) (m : LatitudeMachine)
      → IsRecorded w
      → up_to_date (kube.get_latitude_machine req w).0 w ≡ true
      → (kube.get_latitude_machine req w).0 ≡ ok m
      → IsCustody kube client cloud (
          Reconcile.started kube client
            (kube.new_machine_helper m (kube.get_latitude_machine req w).1).1
            m)
  found-IsCustody req w m h fresh k = ground (
    arith,
    cloud.read req w,
    cloud.helper m (kube.get_latitude_machine req w).1,
    eq_iff m.status.server_id (cloud.recorded w),
  )

  found_run-IsRecorded :
      (req : NamespacedName) (w : W) (m : LatitudeMachine)
      → ends_patched kube client req w ≡ true
      → IsRecorded w
      → up_to_date (kube.get_latitude_machine req w).0 w ≡ true
      → (kube.get_latitude_machine req w).0 ≡ ok m
      → IsRecorded (Reconcile.reconcile kube client req w).1.outside
  unfolding Reconcile.reconcile Reconcile.with_deferred_patch ends_patched
  found_run-IsRecorded req w m h k fresh found =
      let w1 = (kube.get_latitude_machine req w).1 in
      let s : Machines W = Reconcile.started kube client (kube.new_machine_helper m w1).1 m in
      let named : (get_hostname m == cloud.host) ≡ true = ground arith in
      ground (
        arith,
        cloud.read req w,
        cloud.helper m w1,
        last_patch-IsRecorded m (Reconcile.dispatch kube client m s).1
            (rw (get_hostname-dispatch kube client m s) named)
            (dispatch-IsCustody kube client cloud m s named
              (found-IsCustody req w m k fresh found)),
      )

  failed_run-IsRecorded :
      (req : NamespacedName) (w : W)
      → IsRecorded w
      → is_ok (kube.get_latitude_machine req w).0 ≡ false
      → IsRecorded (Reconcile.reconcile kube client req w).1.outside
  unfolding Reconcile.reconcile
  failed_run-IsRecorded req w h k = ground (arith, cloud.read req w)

  run-IsRecorded :
      (req : NamespacedName) (w : W)
      → up_to_date (kube.get_latitude_machine req w).0 w ≡ true
      → ends_patched kube client req w ≡ true
      → IsRecorded w
      → IsRecorded (Reconcile.reconcile kube client req w).1.outside
  run-IsRecorded req w fresh h k = elim (Outcome-ok_cases (kube.get_latitude_machine req w).0) [
    | inl (m, found) ↦ found_run-IsRecorded req w m h k fresh found
    | inr failed ↦ failed_run-IsRecorded req w k failed
  ]

  Step-IsRecorded : {w w' : W} → Step w w' → IsRecorded w → IsRecorded w'
  Step-IsRecorded (a_run req w fresh k) h = run-IsRecorded req w fresh k h
  Step-IsRecorded (outside_change {w} {w'} kept same) h =
      rw same (held-IsKept (cloud.recorded w) kept h)

  -- If Latitude.sh and the API server keep the laws of `Cloud`: over any sequence of runs of the
  -- machine that read it up to date, with the id that is recorded, and whose last patch succeeds if it
  -- is reached, and of changes from outside, among them the runs of other machines, that keep the
  -- record and only take servers of this machine away: if at first every server that a creation for
  -- the machine was answered with, and of which no question was answered with an error, has the id
  -- that is recorded in the machine's status, it is so at the end. So the controller loses a server
  -- that it knows only after a question for it was answered with an error, of any kind, also a timeout.
  pub Steps-IsRecorded : {w w' : W} → IsRecorded w → Steps w w' → IsRecorded w'
  Steps-IsRecorded h done = h
  Steps-IsRecorded h (later steps step) = Step-IsRecorded step (Steps-IsRecorded h steps)
