-- ===== src/Restart/All.antt =====
-- The restart of one workload and of all of them. `at` is the time of the restart, and `type_error` the
-- message of an error of the engine: a property is set on a text, a body is not JSON. The three lists
-- are asked for in turn.
pub mod Accounts
use pertisk_kube_app.Base.{
  ℕ, ◌+◌, ◌≤◌, String, Bool, true, false, not, ◌&&◌, ◌||◌, Option, none, some, List, [], ◌∷◌, ◌++◌,
  map, leb, ltb, eqb, if◌then◌else◌, ◌==◌,
}
use pertisk_kube_app.Base.Json.{Json, undefined, null, bool, num, str, arr, obj, decimal}
use pertisk_kube_app.Base.Lists.{filter}
use pertisk_kube_app.Base.Text.{◌<>◌, trim, trimmed, member, nonempty}
use pertisk_kube_app.Resources.Kind.{shown}
use pertisk_kube_app.Restart.Document.{restart_document}
use pertisk_kube_app.Restart.Requests.{
  Outcome, returned, thrown, WorkloadKind, deployment, stateful_set, daemon_set, kind_text,
  path_text, Workload, Failure, Report, HttpResponse, Request, list_workloads, restart_one,
  get_yaml, put_yaml, post_restart_all, get_restart_all, is_ok, message_of, failure_message, M,
  bind, ◌>>=◌, give, throw, or_blank,
}

module _ {S : Type 0} (fetch : Request → S → Outcome HttpResponse × S)
    (parse : String → Outcome Json) (stringify : Json → String) (type_error : String)
    (at : String) where
  -- restartDeployment
  pub restart_deployment : Workload → M S (Unit {0})
  restart_deployment w = do
    r ← fetch (restart_one (shown w.namespace) w.name)
    if is_ok r then give tt else throw "Failed to restart deployment"

  abbrev pub place : Workload → String
  place w = shown w.namespace <> "/" <> w.name

  -- The end of restart…ViaYaml, with the document that is sent
  pub send_document : WorkloadKind → Workload → Json → M S (Unit {0})
  send_document kind w document = do
    r ← fetch (put_yaml kind (shown w.namespace) w.name (stringify document))
    let told = message_of r.message
    if is_ok r
        then give tt
        else throw (
            if nonempty (or_blank told)
            then or_blank told
            else "Failed to restart "
              <> kind_text kind
              <> " "
              <> place w
              <> " ("
              <> decimal r.status
              <> ")")

  -- parse(text), where it gives an object or an array
  abbrev pub is_document : Json → Bool
  is_document (arr xs) = true
  is_document (obj fs) = true
  is_document _ = false

  abbrev pub lift : {A : Type 0} → Outcome A → M S A
  lift o s = (o, s)

  -- restartStatefulSetViaYaml and restartDaemonSetViaYaml
  pub restart_via_yaml : WorkloadKind → Workload → M S (Unit {0})
  restart_via_yaml kind w = do
    r ← fetch (get_yaml kind (shown w.namespace) w.name)
    if not (is_ok r)
        then throw (
            "Failed to load "
            <> kind_text kind
            <> " YAML "
            <> place w
            <> " ("
            <> decimal r.status
            <> ")")
        else do
          parsed ← lift (parse r.text)
          if not (is_document parsed)
              then throw ("Invalid " <> kind_text kind <> " YAML for " <> place w)
              else elim (restart_document at parsed) [
                | none ↦ throw type_error
                | some document ↦ send_document kind w document
              ]

  abbrev pub failure_of : WorkloadKind → Workload → String → Failure
  failure_of kind w e = record {
    kind = kind_text kind;
    namespace = shown w.namespace;
    name = w.name;
    error = e;
  }

  -- A loop of legacyRestartAllWorkloads, which catches what a restart throws.
  pub restart_each :
      WorkloadKind
      → (Workload → M S (Unit {0}))
      → List Workload
      → ℕ
      → List Failure
      → S
      → (ℕ × List Failure) × S
  restart_each kind restart [] count failed s = ((count, failed), s)
  restart_each kind restart (w ∷ ws) count failed s =
      let (o, s') = restart w s in
      elim o [
        | returned _ ↦ restart_each kind restart ws (count + 1) failed s'
        | thrown e ↦ restart_each kind restart ws count (failed ++ failure_of kind w e ∷ []) s'
      ]

  abbrev pub in_namespaces : List String → Workload → Bool
  in_namespaces names w = elim w.namespace [
    | none ↦ false
    | some ns ↦ nonempty ns && member ns names
  ]

  -- filterByNamespace
  abbrev pub by_namespace : List String → List Workload → List Workload
  by_namespace [] ws = ws
  by_namespace (n ∷ names) ws = filter (in_namespaces (n ∷ names)) ws

  abbrev pub wanted_namespaces : List String → List String
  wanted_namespaces namespaces = filter nonempty (map trim namespaces)

  -- The workloads of a response, none where the request was refused.
  abbrev pub listed : HttpResponse → M S (List Workload)
  listed r =
      if is_ok r then elim r.workloads [ none ↦ throw type_error | some ws ↦ give ws ] else give []

  abbrev pub list_failure : WorkloadKind → HttpResponse → List Failure
  list_failure kind r =
      if is_ok r
      then []
      else record {
        kind = kind_text kind;
        namespace = "*";
        name = "*";
        error = "Failed to list " <> path_text kind <> " (" <> decimal r.status <> ")";
      }
        ∷ []

  -- legacyRestartAllWorkloads, once the three lists are there
  unfoldable pub restart_lists :
      (namespaces : List String)
      → (deployments stateful_sets daemon_sets : List Workload) → List Failure
      → S
      → Report × S
  unfolding restart_each restart_deployment restart_via_yaml send_document trim
  restart_lists namespaces deployments stateful_sets daemon_sets failed s =
      let names = wanted_namespaces namespaces in
      let ((n, failed₁), s₁) =
        restart_each deployment restart_deployment (by_namespace names deployments) 0 failed s in
      let ((m, failed₂), s₂) =
        restart_each stateful_set (restart_via_yaml stateful_set) (by_namespace names stateful_sets)
          0 failed₁ s₁ in
      let ((k, failed₃), s₃) =
        restart_each daemon_set (restart_via_yaml daemon_set) (by_namespace names daemon_sets) 0
          failed₂ s₂ in
      (
        record {
          success = elim failed₃ [ [] ↦ true | _ ∷ _ ↦ false ];
          namespaces = namespaces;
          deployments = n;
          stateful_sets = m;
          daemon_sets = k;
          total = n + m + k;
          failed = failed₃;
        },
        s₃,
      )

  abbrev pub finish : Report × S → Outcome Report × S
  finish (r, s) = (returned r, s)

  -- legacyRestartAllWorkloads
  unfoldable pub legacy_restart_all : List String → M S Report
  unfolding restart_lists
  legacy_restart_all namespaces = do
    a ← fetch (list_workloads deployment)
    b ← fetch (list_workloads stateful_set)
    c ← fetch (list_workloads daemon_set)
    xs ← listed a
    ys ← listed b
    zs ← listed c
    λ s. finish (
        restart_lists namespaces xs ys zs
          (list_failure deployment a ++ list_failure stateful_set b ++ list_failure daemon_set c) s)

  -- What restartAllWorkloads makes of the last response.
  unfoldable pub conclude : List String → HttpResponse → M S Report
  unfolding legacy_restart_all failure_message
  conclude namespaces r =
      let failed : M S Report =
        if eqb r.status 404 then legacy_restart_all namespaces else throw (failure_message r) in
      if is_ok r
      then elim r.report [ none ↦ throw type_error | some report ↦ give report ]
      else failed

  -- restartAllWorkloads
  unfoldable pub restart_all : List String → M S Report
  unfolding conclude
  restart_all namespaces = do
    r ← fetch (post_restart_all namespaces)
    let again : M S Report = fetch (get_restart_all namespaces) >>= conclude namespaces
    if eqb r.status 405 then again else conclude namespaces r
