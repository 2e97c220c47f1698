-- ===== src/Display/Services.antt =====
-- The status, the reason, the rank and the address of a service's row agree.
use pertisk_kube_app.Base.{
  ℕ, String, ◌≡◌, refl, sym, ◌∙◌, Bool, true, false, ◌||◌, inl, inr, arith, eqb, eq_iff,
  if◌then◌else◌, ◌==◌, Bool-cases,
}
use pertisk_kube_app.Display.{
  ServiceRow, is_pending, is_headless, service_status, service_status_reason, service_status_rank,
}

pending_excludes :
    (s : ServiceRow) → is_pending s ≡ true → (s.service_type == "ExternalName") ≡ false
unfolding is_pending
pending_excludes s h = elim (Bool-cases (s.service_type == "ExternalName")) [
  | inr e ↦ e
  | inl e ↦
      let balances : (s.service_type == "LoadBalancer") ≡ true = ground arith in
      let same =
        sym ((eq_iff s.service_type "ExternalName").0 e)
        ∙ (eq_iff s.service_type "LoadBalancer").0 balances in
      let lie = (eq_iff "ExternalName" "LoadBalancer").1 same in cc
]

abbrev status_of : (external pending exposed headless : Bool) → String
status_of external pending exposed headless =
    if external
    then "ExternalName"
    else if pending
    then "Pending"
    else if exposed
    then "Exposed"
    else if headless
    then "Headless"
    else "Internal"

abbrev rank_of : String → ℕ
rank_of status =
    if status == "Pending"
    then 0
    else if status == "Exposed"
    then 1
    else if status == "Internal"
    then 2
    else if status == "Headless"
    then 3
    else 4

status_of-pending :
    (external pending exposed headless : Bool)
    → (pending ≡ true → external ≡ false)
    → ((status_of external pending exposed headless == "Pending") ≡ pending)
      × (eqb (rank_of (status_of external pending exposed headless)) 0 ≡ pending)
status_of-pending true true exposed headless h = let lie = h refl in cc
status_of-pending true false exposed headless h = (refl, refl)
status_of-pending false true exposed headless h = (refl, refl)
status_of-pending false false true headless h = (refl, refl)
status_of-pending false false false true h = (refl, refl)
status_of-pending false false false false h = (refl, refl)

reason_pending :
    (pending external balances port headless : Bool)
    → ((if pending
          then "External IP pending allocation"
          else if external
          then "Routes to external DNS name"
          else if balances
          then "Public load balancer assigned"
          else if port
          then "Exposed on node ports"
          else if headless
          then "Headless service (no virtual ClusterIP)"
          else "Cluster-internal service")
        == "External IP pending allocation")
      ≡ pending
reason_pending true external balances port headless = refl
reason_pending false true balances port headless = refl
reason_pending false false true port headless = refl
reason_pending false false false true headless = refl
reason_pending false false false false true = refl
reason_pending false false false false false = refl

-- Whether a service waits for its address decides alike whether its status is "Pending", its reason
-- says so, and it ranks first.
pub service_status-is_pending :
    (s : ServiceRow)
    → ((service_status s == "Pending") ≡ is_pending s)
      × ((service_status_reason s == "External IP pending allocation") ≡ is_pending s)
      × (eqb (service_status_rank s) 0 ≡ is_pending s)
unfolding service_status service_status_reason service_status_rank
service_status-is_pending s =
    let both =
      status_of-pending (s.service_type == "ExternalName") (is_pending s)
        (s.service_type == "LoadBalancer" || s.service_type == "NodePort")
        (is_headless s.cluster_ip) (pending_excludes s) in
    (
      both.0,
      reason_pending (is_pending s) (s.service_type == "ExternalName")
          (s.service_type == "LoadBalancer") (s.service_type == "NodePort")
          (is_headless s.cluster_ip),
      both.1,
    )
