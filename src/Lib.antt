-- ===== src/Lib.antt =====
-- The Latitude.sh provider of Cluster API: two controllers that turn Kubernetes objects into servers
-- and networks of Latitude.sh. The API server holds LatitudeMachine and LatitudeCluster objects; for
-- each the controller's `Reconcile` is called again and again. It reads the object, calls the
-- Latitude.sh API through `ClientInterface`, changes the object, and patches it when it ends.
--
-- Base, Go: what every part uses. Base has equality tests and integers, over the native numbers. Go
--   writes out the functions of Go's standard library that the code calls, as documented: `strings`,
--   `strconv`, `encoding/base64`, `net.ParseCIDR` with `net/netip`, and errors with their `%w` chains;
--   TextLaws and TrimLaws have lemmas on them.
-- Action: how a Go function runs. An action takes a state to an outcome (a value, an error or a
--   panic at a nil pointer) and the state that it leaves, which an error does not take back.
-- Api: api/v1beta1 and the fields that are read of Kubernetes and Cluster API objects. A nil pointer
--   is `none`.
-- Kube: a parameter. The API server, the patch helper, the clock and the functions on finalizers of
--   controller-runtime and Cluster API. `IsLawful` says what is documented of the finalizers.
-- World: the state of one run: the world outside, the object in hand, and the calls that were made,
--   newest first. The calls are a record for the theorems; no definition reads them.
-- Latitude: internal/latitude/client.go. Types has `ClientInterface`; Sdk is a parameter for
--   latitudesh-go-sdk; Client has the methods over it and Client/Laws their theorems.
-- Scope: internal/scope/machine.go.
-- Vlan: internal/controller/vlan_config.go, and `getMachineIndex`, whose 64-bit `int` is kept as a
--   bit pattern, `% 2 ^ 64`. Index, Address, Subnet, CloudInit and Yaml have the theorems.
-- MachineController: internal/controller/latitudemachine_controller.go. Conditions
--   (`setCondition`, `setMachineFailed`, `isPermanentError`), Lookup (`getLatitudeCluster`,
--   `getProjectID`, `getSite`, `validateMachineSpec`, `checkControlPlaneFailed`), SshKeys
--   (`getSSHKeys`), Server (`reconcileServer`, `injectVLANConfig`, `attachServerToVLAN`) and
--   Reconcile (`Reconcile`, `reconcileNormal`, `reconcileDelete`). One Go function is several
--   definitions here, one for each part that ends it early. Frames says what each part leaves
--   alone. Lifecycle has the abstract phases of a machine. Cloud says what the code relies on of
--   the servers that Latitude.sh keeps, and of the status that the API server keeps; Custody,
--   with Provision, Runs, Clearing, Names and Steps, has the servers of a machine over many runs.
--   Liveness has a world that answers, and what the runs in it come to; Lifetime the way of a
--   machine to its deletion; Service what stands behind a machine that gets ready; Patching the
--   patch at the end of a run. Asking, Creation, Records, Finalizer, Consistency, Deletion, Failure,
--   ConditionLaws, LookupLaws and SshKeyLaws have the other theorems.
-- ClusterController: internal/controller/latitudecluster_controller.go, in the same way: Conditions,
--   Networks (the infrastructure and VLANs), Endpoint (`setupControlPlaneEndpoint`), Reconcile, and
--   the theorems in ConditionLaws, NetworkLaws, SettledLaws, EndpointLaws, AddressLaws, RunLaws,
--   NetworkRuns, Progress, Lifetime (the network of a cluster over its whole life) and Liveness.
-- EndToEnd: the two controllers together, from a server to the endpoint of its cluster.
-- DeepCopy: api/v1beta1/zz_generated.deepcopy.go, by which the caches of controller-runtime hand out
--   objects. Layout has the structs as they lie in memory, Memory the cells behind their pointers,
--   slices and maps, and Kinds which cell holds which type; Copy has the methods, over a parameter
--   for those of k8s.io/apimachinery that they call. Views reads an object of Api from memory;
--   MemoryLaws, Copier, Copiers, ObjectCopiers and Methods lead up to the theorems in Laws.
-- TemplateController: internal/controller/latitudemachinetemplate_controller.go, which does nothing.
-- Manager: cmd/main.go, over a parameter for flag, os, controller-runtime and the constructor of the
--   SDK. Main has `init`, `main` and what the controllers register; Order the theorem on their order.
-- Tests: a small world, known values, and the theorems at concrete inputs.
--
-- Every loop is structural recursion over the list that the code ranges over, or over a text. The
-- wait for a server ends with the context: the number of ticks of 30 seconds that come before it is
-- a parameter (`ticks_within`), and the loop recurs on it. So no fuel is used.
--
-- Not modelled: logging and metrics, with the flags of the logger; what a result says beside an
-- error (controller-runtime does not read it); the registration of types with the scheme builders
-- in api/v1beta1; the metadata of list types, but in DeepCopy; the tests and mocks of the
-- repository. A time is a number of seconds. Two controllers that run at once meet only in the
-- outside world, which every read may find changed; within one run, the laws of Cloud and the
-- hypotheses on a world that answers hold at every call.
pub mod Base
pub mod Go
pub mod Action
pub mod Api
pub mod Kube
pub mod Latitude
pub mod World
pub mod Vlan
pub mod Scope
pub mod MachineController
pub mod ClusterController
pub mod Manager
pub mod TemplateController
pub mod EndToEnd
pub mod DeepCopy
pub mod Tests
