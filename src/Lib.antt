-- ===== src/Lib.antt =====
-- The container egress service watches egress rules in a Kubernetes cluster and keeps a BIG-IP in step
-- with them. A cluster rule, a rule of a namespace or a rule of a service names external services,
-- which are lists of addresses and ports. For each object that changes, a worker of pkg/controller
-- makes a declaration of the firewall objects that the rule needs, and pkg/as3 merges it into the
-- declaration of the same partition on BIG-IP, posts it if it differs, and puts the policy in force.
--
-- How the parts interact. An informer's change passes `isUpdate` and goes into one of five queues. A
-- worker takes it, labels the external services of the rule with its type, sets the rule's phase and
-- calls `As3Request`. This generates the declaration, reads the partition, merges, posts, and asks for
-- or patches the object that names the policy. Changed endpoints go straight to the address list of a
-- service rule; these quick updates are stored to disk together, from time to time.
--
-- Files, and the code that they model:
--   Prelude, Json: Go's maps, strings, panics and JSON values. A panic is an outcome of its own.
--   Kube: pkg/apis/kubeovn.io/v1alpha1 and what is read of Kubernetes' own objects.
--   As3.Types, As3.Resource: pkg/as3/types.go and const.go, with the JSON of each struct.
--   As3.Config, As3.Init: pkg/as3/init.go and register.go. The sync.Map is a record.
--   As3.Attrs, As3.Rules, As3.Firewall, As3.Services, As3.Tenant, As3.Declaration: pkg/as3/utils.go from
--     newAs3Post to getOriginAttrOfUsePath, each function under its own name in snake case.
--   As3.Merge, As3.Merge.Policy, As3.Merge.Cleanup: fullResource, policyMergeFullJson,
--     clearUpUnreferencePolicy and isDiff of pkg/as3/utils.go.
--   As3.Environment: validateJSONAndFetchObject, and the parameters below.
--   As3.Client: pkg/as3/client.go. As3.Request, As3.Frequency: pkg/as3/request.go.
--   As3.Patch: patchResouce and policyPatchJson of pkg/as3/utils.go, patch of pkg/as3/client.go.
--   As3.Closed: when every path of a declaration names an object of it (a predicate, and its proofs).
--   Io: the effects of the program in their order, and the world that answers them.
--   Controller.Update: isUpdate of pkg/controller/controller.go.
--   Controller.Queue: the functions processNext... of pkg/controller, which differ in their handlers.
--   Controller.Sync, Controller.Handlers: process_clusteregressrule.go, process_namespaceegressrule.go and
--     process_serviceegressrule.go. Controller.External, Controller.Endpoint: process_extenalservice.go
--     and process_endpoint.go.
--   Controller.Wiring: NewController, Run and the workers' loops of pkg/controller/controller.go.
--   Controller.System: the program as a transition system. It begins with InitAs3Tenant; a step handles
--     one object that a queue hands out, or checks whether a store is due.
--   Program: cmd/ces/main.go and pkg/signals.
--   The other modules hold proofs, named for what they prove. Samples and the modules Tests and
--   FullTests hold concrete inputs.
--
-- Conventions. A nil slice is an empty slice, and a nil map is told from an empty one only where it is
-- written back as JSON. JSON numbers are integers. Keys of JSON objects are compared exactly. The lower
-- case of a text is that of its ASCII letters. Errors are values without their texts. Loops over slices
-- and maps are structural recursion, so that no fuel is needed; a map is an association list in which
-- no key stands twice, in the order in which a run iterates over it. Where a theorem asks that the
-- lists have that form, it says so by IsMap.
--
-- Parameters. Environment holds net.ParseCIDR, net.ParseIP and the parser of JSON text. World holds the
-- answers of BIG-IP, of the API server and of the informers' caches; each may depend on all effects so
-- far. Both are arbitrary in the theorems and concrete in Samples. The client's mutex makes a request one
-- step of the program, and the transition system takes the handling of an object as one step; its
-- configuration does not change. An event that a deferred function would record is not recorded on a
-- panic.
--
-- Not modelled: pkg/generated and the generated deep copies; the reading and watching of the configuration
-- file (its contents are an argument); credentials and TLS in the client; the logs; translateAs3Declaration
-- and fwrDestPost of pkg/as3/utils.go and GetDefaultTemplate of pkg/as3/init.go, which nothing but tests
-- calls.
pub mod Prelude
pub mod Json
pub mod Kube
pub mod As3
pub mod Io
pub mod Controller
pub mod Program
pub mod Samples
