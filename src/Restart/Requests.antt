-- ===== src/Restart/Requests.antt =====
-- The requests of a restart: `restartDeployment`, `restartStatefulSetViaYaml`, `restartDaemonSetViaYaml`,
-- `legacyRestartAllWorkloads` and `restartAllWorkloads`. The server, whose state the requests change,
-- and the YAML library are parameters; `thrown` is an Error with its message.
use pertisk_kube_app.Base.{
  ℕ, String, Bool, true, false, ◌&&◌, Option, none, some, List, leb, ltb, if◌then◌else◌,
}
use pertisk_kube_app.Base.Json.{decimal}
use pertisk_kube_app.Base.Text.{◌<>◌, trim, trimmed, nonempty}

pub data Outcome (A : Type 0) : Type 0 where
  returned : A → Outcome A
  thrown : String → Outcome A

pub data WorkloadKind : Type 0 where
  deployment stateful_set daemon_set : WorkloadKind

abbrev pub kind_text : WorkloadKind → String
kind_text deployment = "Deployment"
kind_text stateful_set = "StatefulSet"
kind_text daemon_set = "DaemonSet"

abbrev pub path_text : WorkloadKind → String
path_text deployment = "deployments"
path_text stateful_set = "statefulsets"
path_text daemon_set = "daemonsets"

pub record Workload : Type 0 where
  pub namespace : Option String
  pub name : String

pub record Failure : Type 0 where
  pub kind : String
  pub namespace : String
  pub name : String
  pub error : String

-- RestartAllWorkloadsResult
pub record Report : Type 0 where
  pub success : Bool
  pub namespaces : List String
  pub deployments : ℕ
  pub stateful_sets : ℕ
  pub daemon_sets : ℕ
  pub total : ℕ
  pub failed : List Failure

-- A response: its text, and what its text is as JSON (`none` where it is not JSON), for the readers'
-- sakes: an object with or without a message, a list of workloads, a report. A text `null`, on whose
-- message the readers throw, is left out.
pub record HttpResponse : Type 0 where
  pub status : ℕ
  pub status_text : String
  pub text : String
  pub message : Option (Option String)
  pub workloads : Option (List Workload)
  pub report : Option Report

pub data Request : Type 0 where
  list_workloads : WorkloadKind → Request
  restart_one : (namespace name : String) → Request
  get_yaml : WorkloadKind → (namespace name : String) → Request
  put_yaml : WorkloadKind → (namespace name : String) → (text : String) → Request
  post_restart_all get_restart_all : (namespaces : List String) → Request

abbrev pub is_ok : HttpResponse → Bool
is_ok r = leb 200 r.status && ltb r.status 300

-- A body can be read once: a second reader gets an error.
pub record Body : Type 0 where
  pub response : HttpResponse
  pub used : Bool

abbrev pub read_message : Body → Option (Option String) × Body
read_message b = (if b.used then none else b.response.message, record b { used = true })

abbrev pub read_text : Body → Option String
read_text b = if b.used then none else some b.response.text

abbrev pub message_of : Option (Option String) → Option String
message_of none = none
message_of (some m) = m

-- The error of restartAllWorkloads for a response that is neither successful nor 404
unfoldable pub failure_message : HttpResponse → String
unfolding trim decimal
failure_message r =
    let label = decimal r.status <> (if nonempty r.status_text then " " <> r.status_text else "") in
    let (body, used) = read_message (record { response = r; used = false }) in
    let backend = trimmed (message_of body) in
    let fallback = trimmed (read_text used) in
    if nonempty backend
    then "Failed to restart workloads (" <> label <> "): " <> backend
    else if nonempty fallback
    then "Failed to restart workloads (" <> label <> "): " <> fallback
    else "Failed to restart workloads (" <> label <> ")"

-- A step of a server with the state S that may throw
abbrev pub M : Type 0 → Type 0 → Type 0
M S A = S → Outcome A × S

abbrev pub bind : {S A B : Type 0} → Outcome A × S → (A → S → Outcome B × S) → Outcome B × S
bind (returned a, s) f = f a s
bind (thrown e, s) f = (thrown e, s)

infixl 5 ◌>>=◌
abbrev pub ◌>>=◌ :
    {S A B : Type 0} → (S → Outcome A × S) → (A → S → Outcome B × S) → S → Outcome B × S
◌>>=◌ m f s = bind (m s) f

abbrev pub give : {S A : Type 0} → A → S → Outcome A × S
give a s = (returned a, s)

abbrev pub throw : {S A : Type 0} → String → S → Outcome A × S
throw e s = (thrown e, s)

abbrev pub or_blank : Option String → String
or_blank none = ""
or_blank (some m) = m
