-- ===== src/Lib.antt =====
-- The realtime core of the Pertisk Kube web client (TypeScript, frontend/src).
--
-- The client shows Kubernetes resources in tables. A table is fed by a hook that keeps a list of rows
-- and folds into it the watch events of a WebSocket and the lists of a REST endpoint.
--
-- - Pods (frontend/src/hooks/useRealtimePods.ts). `transformPod` makes a row of a watched object:
--   Pods.Raw and Pods.Spec hold the fields that it reads, Pods.Status the status and the error message
--   (the priorities 1 to 6 with their loops, and `getDisplayStatus`), Pods.Details and Pods.Row the other
--   columns. Pods.Merge has the helpers (keepMetric, keepField, normalizeWatchAction), Pods.Reducer
--   the updaters of ADDED, MODIFIED and DELETED events, Pods.Sync the reconciliation `syncPodDetails`,
--   Pods.Hook the hook as a state machine over all its events, and Pods.Connection its socket.
--   The invariant of the list is in Pods.Invariant, and what holds after any run in Pods.Hook.Trace.
-- - Other resources (frontend/src/hooks/useRealtimeResources.ts). `createRealtimeHook` is generic:
--   Resources.Kind holds what it is given for a resource as a record, with the two laws that the
--   theorems need, Resources.Reducer its updaters, Resources.Hook its state machine, and
--   Resources.Errors the classes of error messages.
-- - Shared WebSocket (the module variables of the same file). Socket.Registry is the map from
--   resources to listeners; Socket has the store of sockets, subscribing, unsubscribing, the
--   handlers of a socket and the timers, and Socket.Trace what holds after any run of events
--   (with Socket.Subscriptions and Socket.Synced on what is subscribed, Socket.Kept on listeners).
-- - Rows of workloads (the same file): Workloads.Shared holds the columns that rows share, Workloads the
--   transforms and their status words, Workloads.Kinds what the generic hook is given for them.
-- - Display: frontend/src/utils/index.ts (status colours, compact ages, the name filter; in
--   Display.Merge the merge of two statuses) and frontend/src/utils/serviceStatus.ts.
-- - Ingress: frontend/src/utils/ingress.ts, how the address of an ingress class is found among the
--   services and given to the rows, and in Ingress.Address the address of a watched ingress.
--   Ingress.Services and Ingress.Entries are on the map of the services, Ingress.Resolve on where an address
--   comes from, Ingress.Rows on the rows.
-- - NodeRoles: frontend/src/utils/nodeRoles.ts, the order of a node's roles and of nodes by them.
-- - Auth: frontend/src/utils/auth.ts, the token of a login in the local storage and how long it lasts.
-- - Selection: frontend/src/hooks/useSyncSelectedRealtimeItem.ts, the item that a detail panel shows as
--   the list of a hook changes.
-- - ResourceMap: frontend/src/pages/ResourceMapPage.tsx, the nodes that the map shows when some are
--   collapsed. ResourceMap.Walk and ResourceMap.Ends are on the walk from one node, ResourceMap.Shown on
--   its two passes.
-- - Tabs: frontend/src/components/BottomPanel.tsx. Tabs has the tabs and how one is made, Tabs.Panel the
--   state of the panel with its handlers as steps. Tabs.Trace is on the active tab, Tabs.Marks, Tabs.Dirty
--   and Tabs.Unsaved on the mark of unsaved text, Tabs.FullScreen on the full screen.
-- - Restart: frontend/src/hooks/useKubernetes.ts, how workloads are restarted. Restart.Document is the change
--   of a workload's YAML, Restart.Requests the server's side as requests, responses and steps that may
--   throw, Restart.All the restart of one workload and of all; Restart.All.Accounts is on the
--   report, Restart.Told on the error of a refusal.
-- - PodsPage: frontend/src/pages/PodsPage.tsx with the table of frontend/src/components/DataTable.tsx.
--   PodsPage.Table has the handlers of the table, PodsPage.Rows the filtered and sorted rows, PodsPage.Page the
--   state with its effects, its handlers and the dialog of a deletion as steps. PodsPage.Shown is on the
--   rows, PodsPage.Listed on the selection, PodsPage.Checked on the header's box, PodsPage.Deleted on what is
--   deleted, PodsPage.Late on the end of a deletion. PodsPage.Tooltips is the choice of a
--   pod's tooltip among the events, and PodsPage.Chosen on the one that is chosen.
-- - ServicesPage: frontend/src/pages/ServicesPage.tsx, the page of services with its rows, its selection and
--   its deletions, which the pages of most other kinds resemble. ServicesPage.Ordered is on the order by
--   status, ServicesPage.Gone on selected services that the list no longer has.
-- - Namespaces: frontend/src/context/NamespaceContext.tsx, the selected and the known namespaces and the name
--   filter, which the pages share and the local storage keeps; Namespaces.Stored is on a reload.
-- - Settings: frontend/src/context/FeatureSettingsContext.tsx, how stored settings are normalized (with the
--   preset tests of frontend/src/utils/themePresets.ts); Settings.Normal is on what comes out, Settings.Again
--   on a reload.
-- - Base: names of the library, tests on texts and numbers, lists, JSON values as the client sees them.
--
-- A value of JavaScript that may be anything is a Json value (undefined, null and the other cases), a
-- text that may be absent an Option. State is passed on explicitly, and a hook runs on a list of
-- events: messages, answers of requests, timers. An order of events is an order of the list, so
-- what is shown of every list of events holds of every interleaving. All functions are structural
-- recursions on lists, but for the walk of the resource map, whose fuel is the number of edges and
-- one more: each round takes a node off the stack, and only the first visit of a node pushes its edges.
--
-- Not modelled: the other views (frontend/src/pages, frontend/src/components), the other REST wrappers
-- (frontend/src/hooks/useKubernetes.ts), the desktop bridge, themes, and the Rust server (backend), whose
-- messages are arbitrary events. Logging has no part in the models. The change of case treats
-- the ASCII letters only. How texts compare in a locale, what Date.parse and Number read, and the byte
-- counts of quantities, which are floating-point numbers, are parameters; so are JSON.parse and JSON.stringify
-- on the lists of namespaces.
pub mod Base
pub mod Pods
pub mod Resources
pub mod Socket
pub mod Workloads
pub mod Display
pub mod Ingress
pub mod NodeRoles
pub mod Auth
pub mod Selection
pub mod ResourceMap
pub mod Tabs
pub mod Restart
pub mod PodsPage
pub mod ServicesPage
pub mod Namespaces
pub mod Settings
