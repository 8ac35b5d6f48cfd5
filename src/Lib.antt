-- ===== src/Lib.antt =====
-- dockyards-talos: a discovery service for Talos clusters, and a controller that applies routes to
-- the nodes of machines.
--
-- The program has these parts. The discovery server keeps, for each cluster, the affiliates that its
-- nodes report, and sends every change to the clients that watch, and to the persister, which saves
-- the state. The LinkConfig controller reads the routes that a LinkConfig asks for, fills in missing
-- gateways from the networks of the machine's pod, and hands the routes to an injector, which writes
-- them into the node's machine configuration and waits until they are there; what was applied is
-- recorded in an annotation of the machine. The Release controller asks Flux for the images of a
-- Release and records the versions that are found. A webhook validates node pools.
--
-- Base holds what the parts share: Go's maps as lists of entries with one entry per key (Base/GoMap),
-- loops over maps, which take the order of the runtime as an argument (Base/Range), sets of names
-- (Base/NameSet), strings.TrimSpace and the order of strings (Base/Text), sorting (Base/Sort), times
-- as integers of nanoseconds (Base/Time), slices by position (Base/Positions), calls that may block
-- or panic (Base/Outcome), and errors as values (Base/Result).
--
-- Discovery models internal/discovery/cluster_discovery_server.go.
--   Discovery/Types       ClusterAffiliateID, ClusterAffiliate, WatchResponse
--   Discovery/Watchers    ClusterDiscoveryServer, broadcast
--   Discovery/Garbage     collectGarbage
--   Discovery/Update      AffiliateUpdate
--   Discovery/Delete      AffiliateDelete
--   Discovery/Listing     List, broadcastCurrentState
--   Discovery/Watch       Watch, stripAffiliateContent, clusterAffiliateCount
--   Discovery/Persister   statePersister
--   Discovery/Lifecycle   NewClusterDiscoveryServer, Close, garbageCollectionLoop
--   Discovery/Options     ClusterDiscoveryServerOptions, and the constructor on them
--   Discovery/Hello       Hello
--   Discovery/History     sequences of these calls and their specifications, on keys and entries, and
--                         without any order (Discovery/History/View)
--   Discovery/Concurrent  the calls as threads, with internal/sync/mutex_protected.go
--   Discovery/Providers   state_provider.go, discard_state_provider.go, json_file_state_provider.go
-- A call takes the server and returns it, with the times that it reads and the orders in which it
-- visits maps as arguments. A channel is its queue, of at most 1024 messages, as in the code; a call
-- sends at most two messages to a watcher, so a history of n calls fits if 2 * n is at most 1024.
-- In Discovery/Concurrent a call has at most six critical sections, each a step on the shared server,
-- and events of other threads, of clients and of the runtime come in between.
--
-- Routes models internal/routes/talos_injector.go and internal/routes/injector.go.
--   Routes/Types       Node, Route, and the package net/netip as a parameter
--   Routes/Interfaces  normalizeManagedInterfaces
--   Routes/Desired     desiredRouteConfigsByInterface, sortRouteConfigs, sameRouteConfigs,
--                      routeConfigSignature
--   Routes/Documents   reconcileManagedLinkRoutes
--   Routes/Applied     expectedMachineConfigRouteSpec, waitForRoutesApplied
--   Routes/Reconcile   EnsureRoutes, ensureRouteSet, applyMachineConfig, extractMachineConfigBody
-- The wait for the routes takes the list of its rounds, each with the answers of the node and the
-- time; it stands as waiting where the list ends before it returns. In LinkConfig/Injected the nodes
-- are found by their addresses, and the rounds of a call are taken to go on beyond its timeout of
-- thirty seconds, so that the call has returned.
--
-- LinkConfig models controllers/linkconfig_controller.go and the types of
-- api/v1alpha3/linkconfig_types.go and api/v1alpha3/zz_generated.deepcopy.go.
--   LinkConfig/Types       the LinkConfig, and what is read of machines and pods
--   LinkConfig/Desired     extractDesiredRoutes, and the gateways that Reconcile fills in
--   LinkConfig/Interfaces  managedInterfacesFromState, mergeManagedInterfaces
--   LinkConfig/Gateway     deriveGatewayFromVMPod and what it calls
--   LinkConfig/Cluster     the requests to the cluster, and the recorded state
--   LinkConfig/Reconcile   Reconcile, reconcileMissingLinkConfig
--   LinkConfig/Injected    the same with the injector of internal/routes, which NewTalosInjector makes
--   LinkConfig/Copies      DeepCopyInto, DeepCopy and DeepCopyObject, on a heap
-- The heap of LinkConfig/Copies has a store of cells for each type that a deep copy allocates.
--
-- Release models controllers/dockyardsrelease_controller.go and controllers/controller_consts.go.
--   Release/Types       the Release and its images, and the client, semver and the platforms
--   Release/Policies    the repository and the policies that are set up, ReleaseFromImagePolicy
--   Release/Kubernetes  reconcileKubernetesReleases
--   Release/Talos       reconcileTalosInstaller
--   Release/Reconcile   Reconcile
--
-- Webhook models webhooks/dockyardsnodepool_webhook.go. Commands models what
-- cmd/discovery-service/main.go sets up before it serves, Commands/Manager what
-- cmd/dockyards-talos/main.go does, with its own copy of that code, and Commands/Client models
-- cmd/dummy-discovery-client/main.go.
--
-- Parameters stand for code outside the repository: net and net/netip, os and encoding/json, the
-- Talos machinery and its client, the Kubernetes client, semver and the quantities of resources. Not
-- modelled: the registration of types and of controllers, the logs of the servers, the parsing of
-- flags, and how the commands serve and stop. The metadata of metav1 stands for its value. That the
-- runtime may reclaim a watcher's channel at any moment is an event of Discovery/Concurrent;
-- elsewhere a reclaimed watcher is a pointer that reads as missing.
--
-- Tests applies the theorems to concrete inputs.
pub mod Base
pub mod Discovery
pub mod Routes
pub mod LinkConfig
pub mod Release
pub mod Webhook
pub mod Commands
pub mod Tests
