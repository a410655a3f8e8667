-- ===== src/Lib.antt =====
-- The maintenance controller: a Kubernetes controller that moves nodes through the states
-- operational, maintenance-required and in-maintenance, by profiles of check, notification and
-- trigger plugins that an operator configures.
--
-- A reconciliation (controllers/node_controller.go) fetches a node, parses the data that it keeps
-- in an annotation, runs four handlers on it (controllers/node_handler.go), writes the data back
-- and patches the node. The handler ApplyProfiles evaluates the state of each profile of the node
-- (state/state.go), which runs the chains of plugins (plugin/), and moves the profiles by the
-- results. The dashboard reads a cache (cache/cache.go) that each evaluation updates.
--
-- Base: Go maps, runs with a state that may panic, integers and texts. A `Run` is a function from
-- a state to an outcome and a state, so that what was written before a panic or an error stays.
-- Errors: the errors of the program and of plugin/plugin.go. GoTime: the times, durations and
-- dates of Go's package time that the program uses; times are nanoseconds, durations are int64
-- with their saturation and wrap-around.
-- World: the node object that a reconciliation shares with every plugin, and all that lies outside
-- of it, as a parameter `E` with the operations of `Platform` (the clock, the counters of package
-- metrics and the recorder of the events of Apply), `Client` (the Kubernetes client of the reconciler) and `Api` (that of the plugins).
-- State: state/state.go with operational.go, required.go and maintenance.go. State/Labels, Data,
-- Profiles, Transition, Notify and Apply hold the code; Choice, Outcomes, Frame and Maintained the
-- proofs; Known says which texts are states. `Session` is the pair of a node's data and the world,
-- which Apply and its plugins change.
-- Plugin: plugin/check.go, trigger.go and notification.go, with proofs in Chains and Schedules;
-- Registry and Assembly hold plugin/plugin.go, with the New methods of the plugins, ucfgwrap and
-- gval as parameters. Weekday: common/weekday.go.
-- Controllers: Handler and Evaluate hold node_handler.go, Reconcile holds node_controller.go and
-- Configuration config.go; the other modules prove, Reachable over any sequence of reconciliations. Cache: cache/cache.go.
-- Impl: the plugins of plugin/impl. Labels (label.go, annotation.go, condition.go, nodecount.go),
-- TimeWindow, Wait, MaxMaintenance, Affinity, Eviction, Stagger, Semver, Hypervisor and SlackThread
-- (slack.go), with proofs in Changes, Window, Elapsed, Candidates, MissingData, Neighbours, Evicted, Staggered
-- and Outdated. Drain: common/schedule.go, without the wait for
-- deletions. Api: the calls that they make.
-- Esx: a controller that labels nodes by the state of their ESX host, and shuts off and starts
-- their virtual machines. Vcenter holds esx/config.go and util.go, Inspection check.go, Power
-- shutdown.go and start.go; Hosts, Nodes and Rounds hold runnable.go. Grouping, Labelling, Poweroff
-- and Spared prove. The calls of govmomi are the record `Sdk`. A failure domain is a text of ASCII.
-- Kubernikus: kubernikus/node_controller.go with common/openstack.go and common/version.go, over
-- the calls of `Cloud`; Deletion proves. Metrics: metrics/metrics.go over `Workloads` (reads of the
-- cluster) and `Counters` (Prometheus and float64); Owners proves.
-- Examples: runs at concrete values.
--
-- Fuel: the loop of waitExclude over days has one round for each day from the transition to now,
-- and two more. The digits of a number n are printed with fuel n, and more fuel changes nothing.
-- All other loops are over lists or up to a number.
--
-- Logging is left out, and so are the Kubernetes events that the drain records. Maps are association lists; the order of a Go map's iteration does not
-- matter where the code iterates over one. JSON sorts the keys of a map, and so decoding is asked to
-- give back the value of every key, and not the same list. encoding/json is the parameter `Codec`, gval the field
-- `evaluable` of a check chain. Not modelled: the constructors of
-- the plugins, RenderNotificationTemplate, the web server, main.go, the reading of configuration
-- files, the plugins of plugin/impl that are not named above (the finalizer, Prometheus, mail and
-- the count of Kubernikus nodes are calls of packages that are not part of the repository), and the
-- set-up of the managers.
pub mod Base
pub mod Errors
pub mod GoTime
pub mod World
pub mod Plugin
pub mod State
pub mod Cache
pub mod Controllers
pub mod Api
pub mod Weekday
pub mod Drain
pub mod Esx
pub mod Metrics
pub mod Kubernikus
pub mod Impl
pub mod Examples
