-- ===== src/Display.antt =====
-- How values are shown: frontend/src/utils/index.ts (status colours, compact ages, name filters) and
-- frontend/src/utils/serviceStatus.ts.
pub mod Colours
pub mod Ages
pub mod Services
pub mod Merge
mod Tests
use pertisk_kube_app.Base.{
  ℕ, ◌/◌, ◌%◌, String, Bool, true, false, not, ◌&&◌, ◌||◌, Option, none, some, List, [], ◌∷◌, ltb,
  if◌then◌else◌, ◌==◌,
}
use text.Mathlib.Text.{starts_with}
use pertisk_kube_app.Base.Json.{decimal}
use pertisk_kube_app.Base.Text.{◌<>◌, trim, to_lower, includes, member}
use pertisk_kube_app.Pods.Raw.{or_text, has_text}

-- matchesResourceNameFilter
unfoldable pub matches_filter : (name : Option String) → (filter : String) → Bool
unfolding trim to_lower includes
matches_filter name filter = if trim filter == "" then true else elim name [
  | none ↦ false
  | some s ↦ if s == "" then false else includes (to_lower s) (to_lower (trim filter))
]

pub data Colour : Type 0 where
  green yellow red gray : Colour

success_words : List String
success_words =
    "running" ∷ "active" ∷ "true" ∷ "ready" ∷ "available" ∷ "bound" ∷ "succeeded" ∷ "completed"
    ∷ "exposed" ∷ "internal" ∷ "headless" ∷ "externalname" ∷ "deployed" ∷ []

warning_words : List String
warning_words =
    "paused" ∷ "pending" ∷ "unknown" ∷ "false" ∷ "progressing" ∷ "containercreating"
    ∷ "containerstarting" ∷ "podinitialized" ∷ "podinitializing" ∷ "terminating" ∷ "released"
    ∷ "uninstalling" ∷ []

error_words : List String
error_words =
    "notready" ∷ "not ready" ∷ "failed" ∷ "error" ∷ "crashed" ∷ "unavailable" ∷ "crashloopbackoff"
    ∷ "imagepullbackoff" ∷ "errimagepull" ∷ "errimageneverpu" ∷ "createcontainerconfigerror"
    ∷ "invalidimagelink" ∷ "unschedulable" ∷ "evicted" ∷ "lost" ∷ "oomkilled" ∷ "terminated" ∷ []

-- getStatusColor
unfoldable pub status_colour : String → Colour
unfolding success_words warning_words error_words to_lower includes
status_colour status =
    let lower = to_lower status in
    if member lower success_words
    then green
    else if member lower warning_words || starts_with lower "init:" || includes lower "pending"
    then yellow
    else if lower == "superseded" || lower == "uninstalled"
    then gray
    else if member lower error_words
    then red
    else gray

-- The number of the larger unit, and that of the smaller one, which is left out where it is 0.
abbrev two_units : (large small : String) → ℕ → ℕ → String
two_units large small n m =
    if ltb 0 m then decimal n <> large <> decimal m <> small else decimal n <> large

-- formatCompactAge
unfoldable pub compact_age : ℕ → String
compact_age seconds =
    if ltb seconds 60
    then decimal seconds <> "s"
    else if ltb seconds 3600
    then two_units "m" "s" (seconds / 60) (seconds % 60)
    else if ltb seconds 86400
    then two_units "h" "m" (seconds / 3600) (seconds % 3600 / 60)
    else if ltb seconds 604800
    then two_units "d" "h" (seconds / 86400) (seconds % 86400 / 3600)
    else two_units "w" "d" (seconds / 604800) (seconds % 604800 / 86400)

-- The columns of a service's row that its status reads.
pub record ServiceRow : Type 0 where
  pub service_type : String
  pub cluster_ip : Option String
  pub external_ip : Option String

unfoldable pub has_external_address : Option String → Bool
has_external_address external_ip =
    let normalized = to_lower (trim (or_text external_ip "")) in
    not (normalized == "") && not (member normalized ("-" ∷ "none" ∷ "<none>" ∷ "<pending>" ∷ []))

unfoldable pub is_headless : Option String → Bool
is_headless cluster_ip =
    let normalized = to_lower (trim (or_text cluster_ip "")) in
    normalized == "none" || normalized == ""

-- isExternalIpPending
unfoldable pub is_pending : ServiceRow → Bool
is_pending s = s.service_type == "LoadBalancer" && not (has_external_address s.external_ip)

-- getServiceStatus
unfoldable pub service_status : ServiceRow → String
service_status s =
    if s.service_type == "ExternalName"
    then "ExternalName"
    else if is_pending s
    then "Pending"
    else if s.service_type == "LoadBalancer" || s.service_type == "NodePort"
    then "Exposed"
    else if is_headless s.cluster_ip
    then "Headless"
    else "Internal"

-- getServiceStatusReason
unfoldable pub service_status_reason : ServiceRow → String
service_status_reason s =
    if is_pending s
    then "External IP pending allocation"
    else if s.service_type == "ExternalName"
    then "Routes to external DNS name"
    else if s.service_type == "LoadBalancer"
    then "Public load balancer assigned"
    else if s.service_type == "NodePort"
    then "Exposed on node ports"
    else if is_headless s.cluster_ip
    then "Headless service (no virtual ClusterIP)"
    else "Cluster-internal service"

-- getServiceStatusRank
unfoldable pub service_status_rank : ServiceRow → ℕ
service_status_rank s =
    let status = service_status s in
    if status == "Pending"
    then 0
    else if status == "Exposed"
    then 1
    else if status == "Internal"
    then 2
    else if status == "Headless"
    then 3
    else 4

-- getServiceExternalIpDisplay
unfoldable pub external_ip_display : ServiceRow → String
external_ip_display s = if is_pending s then "Pending allocation" else or_text s.external_ip "-"
