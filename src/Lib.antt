-- ===== src/Lib.antt =====
-- A model of the core of containerlab: how a lab's definition is resolved into the settings of its
-- nodes, and in which order the nodes of a lab may go through their deployment stages.
--
-- The program reads a topology (types/topology.go): settings stand on the levels defaults, kinds,
-- groups and nodes, and getters resolve them for a node. From the resolved configurations
-- createNodes (core/deploy.go, core/clab.go) makes the dependencies between the nodes, which the
-- dependency manager (core/dependency_manager) keeps: one wait group for each stage of a node, and for
-- each stage the list of those that wait for it. It refuses cycles, and a node that finishes a stage
-- signals those that wait for it.
--
-- - Base: shared names, Boolean tests, the outcome of a call (a value, an error, or a panic, which is a
--   nil dereference, an index out of range or a negative wait group), lists, and Go maps as association
--   lists. The order of such a list is the order in which a range visits the map; the theorems hold
--   for all lists, so for all orders.
-- - Utils/Env: MergeStringMaps, MergeStringSlices and StringInSlice of utils/env.go. A map or slice that
--   may be nil is an Option.
-- - Types/Stages: types/stages.go. Types/Bind: types/bind.go. Types/NodeDefinition:
--   types/node_definition.go and the settings of types/types.go and types/component.go. Types/Text and
--   Types/Number: what these use of the Go standard library; a floating-point number is its bit
--   pattern.
-- - Types/Topology: types/topology.go. getField, getFieldPtr and the merging of slices and maps are
--   in the module itself; the getters, which have the names of the code in this spelling, are in Texts,
--   Getters, Credentials and Layers.
-- - DependencyManager/Node: dependency_node.go and depender_node_stage.go. A pointer to a dependency node
--   is the name of the node in the manager's map, a wait group is its counter, and EnterStage, which
--   waits, is the test whether it goes on. DependencyManager/Acyclic and DependencyManager/Check:
--   isAcyclic, generateDependencyMap and CheckAcyclicity of dependency_manager.go.
-- - Core/Dependencies: createNodes up to the scheduling, with createStaticDynamicDependency,
--   createWaitForDependency and createNamespaceSharingDependency.
-- - Core/Scheduling: scheduleNodes and scheduleNodeWorkerF. Each node has a place, where its goroutine
--   or worker stands, and a step is what one of them does between two points at which others may go on;
--   a run is any sequence of steps. Core/Scheduling/Plan is what the scheduling promises, without wait
--   groups.
-- - Core/Config: the checks of core/config.go and filterClabNodes of core/clab.go. Core/NodeSettings: the
--   container name, credentials and default labels of a node, the management network, the entries for
--   /etc/hosts, and how a node's snapshot is found. Core/Restoring: configureSnapshotRestore of
--   core/deploy.go.
-- - Links: link.go, link_brief.go and the raw links of links. Texts are valid UTF-8. The parser of address
--   prefixes is a parameter, of which nothing is assumed.
-- - Links/Store, Links/Ownership: the endpoints and nodes of a lab as objects of a store, reached by
--   their addresses, with the code that runs in the namespace of a node and moveEndpoint
--   (links/endpoint.go, links/generic_link_node.go, nodes/default_node.go). The host, that is netlink,
--   the container runtime and the file system, is a parameter: a record of calls that read and change
--   its state, of which nothing is assumed. Links/Parking and Links/Discovery: links/parking_node.go.
--   Links/VethDeploy: Deploy of links/link_veth.go, with the host as such a record.
-- - Nodes/Lifecycle: Stop and Start of nodes/default_node.go, with the named namespaces of
--   utils/netlink.go. Nodes/Interfaces: the mapping of interface names and the checks on them, with a
--   regular expression as its matches. Nodes/Int64: Go's int as a bit pattern of 64 bits. Nodes/Registry:
--   nodes/node_registry.go.
--
-- Only isAcyclic runs on fuel. Each of its rounds but the last takes a node away, so one more than the
-- number of nodes is enough. Error values are constructors without their messages.
--
-- A command of a stage runs in Done (RunExec of a node is a parameter there); the scheduling takes only
-- the signals of Done, so that a lab in which such a command panics is outside its theorems, as are
-- the commands of the phase on-enter. A loop that polls a container takes no step of its own.
--
-- Not modelled: reading and decoding of files, the container runtimes, netlink, the commands that a
-- stage runs, logging and printing; entries of command and wait-for lists are taken as not nil. The
-- parser of port specifications is a parameter of get_node_ports.
pub mod Base
pub mod Utils
pub mod Types
pub mod DependencyManager
pub mod Links
pub mod Nodes
pub mod Core
