-- ===== src/Lib.antt =====
-- A model of jpl, the library that applies sets of Kubernetes resources to a cluster in the order
-- of their dependencies, and theorems about it.
--
-- The program. A client (pkg/client) reads resources, runs generators and mutators on them, builds
-- the graph of their dependencies (pkg/resource/graph.go), asks it for the groups of resources that
-- can be applied one after the other, and turns each group into a task that applies it and a task
-- that waits for it. The tasks (pkg/runner/task) send events; the poller (pkg/poller) tells from an
-- object of the cluster whether its resource is current; the inventory (pkg/inventory) remembers
-- what has been applied, so that the next run can delete what is no longer wanted.
--
-- The files.
--   Base: numbers, texts as lists of code points, maps as association lists, sets as lists without
--     repetition, sorting; with what the Go standard library documents of them.
--   Resource/Object: pkg/resource/resourcemetadata.go, unstructured.go. An Unstructured is a pointer:
--     its address and what the getters of the object answer. Two pointers to one address are equal.
--   Resource/Less: pkg/resource/sort.go, SortableObjects.Less and lessGK with the table of kinds.
--   Resource/Depends: pkg/resource/dependency.go, the annotation of explicit dependencies.
--     ObjectExplicitDependencies is object_explicit_dependencies, and so on.
--   Resource/Graph: pkg/resource/graph.go, the graph and SortedResourceGroups. The result holds the
--     groups, the error, and the map that the call leaves in the graph, whose sets it shares.
--   Resource/Build: pkg/resource/graph.go, NewDependencyGraph and dependendenciesForObj. What
--     apimachinery makes of a CRD and of a webhook configuration are arguments.
--   Poller/Result, Poller/Object: pkg/poller/status.go, the messages of statuschecker.go, and what the
--     checks read of an object: the record Api holds the functions of apimachinery and the time.
--   Poller/Kinds, Poller/Workloads, Poller/Check: pkg/poller/statuschecker.go, one function for each
--     of its functions on the typed values, and statusCheck with the panic of its type assertion.
--     An int32 is an integer; its subtraction wraps around.
--   Poller/Handler: pkg/poller/informerMultiplexer.go, the handlers, called one after the other; the end
--     of the context is one of the notifications.
--   Poller/Start: pkg/poller/poller.go with Run and startInformer of informerMultiplexer.go. A turn is
--     one goroutine of startInformer, which the lock of the map makes one step.
--   Poller/Multiplexer: pkg/poller/multiplexer.go, a step relation whose steps are the accesses of the
--     goroutines to what they share.
--   Poller/Delivered: the two writers behind each channel of the multiplexer, the event handlers of
--     the informer and the handler of the errors of its watch; Base/Interleaving is how they mix.
--   Poller/Informer: pkg/poller/informer.go, Run and Stop of one informer as a step relation.
--   Remote: the errors of the API server and the tests of apimachinery on them.
--   Event: pkg/event/event.go, the events with their texts.
--   Runner/State: pkg/client/runner_state.go. The channel of the events is the list of what was sent;
--     `R` is the state of everything outside the program, to which each request is a function.
--   Runner/Patch, Runner/Apply, Runner/Prune, Runner/Wait: pkg/runner/task, applyObject with
--     migrateToSSAIfNecessary, and the Run of each task; InventoryTask is in Runner/Prune.
--   Runner/Queue: pkg/runner/runner.go, RunWithQueue as a step relation, since its select may take
--     either of two cases that are ready.
--   Client/QueueBuilder: pkg/client/queuebuilder.go, QueueBuilder.Build.
--   Client/Passes: pkg/client/applier.go, generateObjects and mutateObjects. A write through a
--     pointer changes every object of the list at its address.
--   Client/Applier: pkg/client/applier.go, Applier.Run: `prepare` is what precedes the tasks, IsRun
--     the whole run.
--   Client/Builder: pkg/client/builder.go, with DefaultInfoFetcherBuilder of pkg/runner/task/apply.go.
--   Client/Factory: pkg/util/factory.go, UnstructuredClientForMapping.
--   Client/Cache: pkg/client/cache/object_cache.go.
--   Generator, Mutator: pkg/generator/cronjob.go and pkg/mutator/labels.go.
--   ResourceReader: pkg/resourcereader, on the nodes that kio has read: setNamespace is set_namespace.
--   FlowControl: pkg/flowcontrol/flowcontrol.go, IsEnabled.
--   Resource/Scope: pkg/resource/scope.go.
--   Resource/Errors: pkg/resource/errors.go, the texts of the errors.
--   Resource/Text: pkg/resource/resourcemetadata.go, ToString and ObjectMetadataFromString. The
--     regular expression is the function that it describes: it has one way to match.
--   Inventory/Store: pkg/inventory/configmap.go. The data of the ConfigMap are an association list.
--   Inventory/Manager: pkg/inventory/manager.go, the statuses of a run and the set that is saved.
--
-- Choices. The iteration order of a Go map is not specified: it is the argument `range` of the
-- definitions, a function that permutes the entries. The loop of SortedResourceGroups is recursion
-- on fuel, as much as the graph has vertices, since each round removes one vertex or more; a theorem
-- shows that it is enough. Errors are values with their text and what apimachinery says of
-- them; the text of a status message is not modelled, what it is made of is.
--
-- Not modelled: the client-go informers, the REST client and the cluster; the parsing of files and of
-- YAML; the methods of the factory that hand a call on. In the runner and the tasks a channel of
-- events is the list of what is sent, so that a blocked or cancelled receiver is not modelled there,
-- and goroutines are not, but for the choice that the runner's select makes; the multiplexer of
-- channels and the informers are modelled with theirs.
pub mod Base
pub mod Client
pub mod Event
pub mod FlowControl
pub mod Generator
pub mod Inventory
pub mod Mutator
pub mod Poller
pub mod Remote
pub mod Resource
pub mod ResourceReader
pub mod Runner
