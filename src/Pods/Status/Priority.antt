-- ===== src/Pods/Status/Priority.antt =====
-- The order of the priorities in `transformPod`, and the status that is never blank.
use text.Mathlib.TextLemmas.{append-eq-nil_iff}
use pertisk_kube_app.Base.{
  ℕ, String, ◌≡◌, ◌≢◌, refl, Bool, true, false, inl, inr, Option, none, some, List, [], ◌∷◌, arith,
  eq_iff, ◌==◌, Option-cases, ltb,
}
use pertisk_kube_app.Base.Text.{◌<>◌}
use pertisk_kube_app.Base.Lists.{find}
use pertisk_kube_app.Pods.Raw.{
  ContainerStatus, ContainerState, Terminated, Metadata, PodStatus, or_text, has_text,
}
use pertisk_kube_app.Pods.Status.{
  Verdict, init_loop, init_state, init_terminated, pending_loop, pending_state, running_loop,
  running_state, running_terminated, failed_loop, failed_state, pending_verdict, pending_containers,
  running_verdict, failed_verdict, primary_verdict, pod_verdict, ready_count, total_count,
  start_verdict, or_creating, is_scheduled_condition,
}

or_text-ne-blank : (o : Option String) (d : String) → d ≢ "" → or_text o d ≢ ""
or_text-ne-blank none d h = h
or_text-ne-blank (some s) d h = ground (arith, eq_iff s "")

or_text_of_has_text : (o : Option String) → has_text o ≡ true → or_text o "" ≢ ""
or_text_of_has_text none h = cc
or_text_of_has_text (some s) h = ground (arith, eq_iff s "")

prefix-ne-blank : (s t : String) → s ≢ "" → (s <> t) ≢ ""
prefix-ne-blank s t h e = h (append-eq-nil_iff.0 e).0

literal : (s : String) → (s == "") ≡ false → s ≢ ""
literal s h = ground (arith, eq_iff s "")

abbrev IsNamed : Verdict → Type 0
IsNamed v = v.status ≢ ""

abbrev IsNamed? : Option Verdict → Type 0
IsNamed? none = Unit
IsNamed? (some v) = IsNamed v

init_terminated-IsNamed :
    (t : Option Terminated) (v rest : Verdict) → IsNamed rest → IsNamed (init_terminated t v rest)
unfolding init_terminated
init_terminated-IsNamed none v rest h = h
init_terminated-IsNamed (some t) v rest h =
    ground (arith, prefix-ne-blank "Init:" (or_text t.reason "Error") (literal "Init:" refl))

init_state-IsNamed :
    (s : ContainerState) (v rest : Verdict) → IsNamed rest → IsNamed (init_state s v rest)
unfolding init_state
init_state-IsNamed s v rest h = elim (Option-cases s.waiting) [
  | inl e ↦
      rw e
        (ground (arith, init_terminated-IsNamed s.terminated v rest h, eq_iff "PodInitializing" ""))
  | inr (w, e) ↦ rw e (or_text-ne-blank w.reason "PodInitializing" (literal _ refl))
]

init_loop-IsNamed : (cs : List ContainerStatus) (v : Verdict) → IsNamed v → IsNamed (init_loop cs v)
unfolding init_loop
init_loop-IsNamed [] v h = h
init_loop-IsNamed (c ∷ cs) v h =
    init_state-IsNamed c.state v (init_loop cs v) (init_loop-IsNamed cs v h)

pending_state-IsNamed :
    (s : ContainerState) (b : Bool) (v : Verdict) (rest : Option Verdict)
    → IsNamed? rest
    → IsNamed? (pending_state s b v rest)
unfolding pending_state
pending_state-IsNamed s b v rest h = elim (Option-cases s.waiting) [
  | inl e ↦ rw e (ground (arith, eq_iff "ContainerStarting" ""))
  | inr (w, e) ↦ rw e (ground (arith, or_text_of_has_text w.reason))
]

pending_loop-IsNamed :
    (cs : List ContainerStatus) (b : Bool) (v : Verdict) → IsNamed? (pending_loop cs b v)
unfolding pending_loop
pending_loop-IsNamed [] b v = tt
pending_loop-IsNamed (c ∷ cs) b v =
    pending_state-IsNamed c.state b v (pending_loop cs b v) (pending_loop-IsNamed cs b v)

running_terminated-IsNamed :
    (t : Option Terminated) (v : Verdict) (rest : Option Verdict)
    → IsNamed? rest
    → IsNamed? (running_terminated t v rest)
unfolding running_terminated
running_terminated-IsNamed none v rest h = h
running_terminated-IsNamed (some t) v rest h = ground (arith, or_text_of_has_text t.reason)

running_state-IsNamed :
    (s : ContainerState) (v : Verdict) (rest : Option Verdict)
    → IsNamed? rest
    → IsNamed? (running_state s v rest)
unfolding running_state
running_state-IsNamed s v rest h = elim (Option-cases s.waiting) [
  | inl e ↦ rw e (running_terminated-IsNamed s.terminated v rest h)
  | inr (w, e) ↦ rw e (ground (arith, or_text_of_has_text w.reason))
]

running_loop-IsNamed : (cs : List ContainerStatus) (v : Verdict) → IsNamed? (running_loop cs v)
unfolding running_loop
running_loop-IsNamed [] v = tt
running_loop-IsNamed (c ∷ cs) v =
    running_state-IsNamed c.state v (running_loop cs v) (running_loop-IsNamed cs v)

failed_state-IsNamed :
    (s : ContainerState) (v rest : Verdict) → IsNamed rest → IsNamed (failed_state s v rest)
unfolding failed_state
failed_state-IsNamed s v rest h = elim (Option-cases s.terminated) [
  | inl e ↦ rw e h
  | inr (t, e) ↦ rw e (ground (arith, or_text_of_has_text t.reason))
]

failed_loop-IsNamed :
    (cs : List ContainerStatus) (v : Verdict) → IsNamed v → IsNamed (failed_loop cs v)
unfolding failed_loop
failed_loop-IsNamed [] v h = h
failed_loop-IsNamed (c ∷ cs) v h =
    failed_state-IsNamed c.state v (failed_loop cs v) (failed_loop-IsNamed cs v h)

or_creating-IsNamed : (v : Verdict) (o : Option Verdict) → IsNamed? o → IsNamed (or_creating v o)
unfolding or_creating
or_creating-IsNamed v none h = literal _ refl
or_creating-IsNamed v (some w) h = h

module _ (n : ℕ) (s : PodStatus) where
  start-IsNamed : IsNamed (start_verdict s)
  start-IsNamed = or_text-ne-blank s.phase "Unknown" (literal _ refl)

  pending_containers-IsNamed : IsNamed (pending_containers n s)
  unfolding pending_containers
  pending_containers-IsNamed = ground (
    arith,
    eq_iff "ContainerCreating" "",
    or_creating-IsNamed (start_verdict s)
        (pending_loop s.container_statuses (ltb (ready_count s) (total_count n s))
          (start_verdict s))
        (pending_loop-IsNamed s.container_statuses (ltb (ready_count s) (total_count n s))
          (start_verdict s)),
  )

  pending_verdict-IsNamed : IsNamed (pending_verdict n s)
  unfolding pending_verdict
  pending_verdict-IsNamed = elim (Option-cases (find is_scheduled_condition s.conditions)) [
    | inl e ↦ rw (e, pending_verdict) pending_containers-IsNamed
    | inr (c, e) ↦
        rw (e, pending_verdict)
          (ground (
            arith,
            or_text-ne-blank c.reason "Unschedulable" (literal _ refl),
            pending_containers-IsNamed,
          ))
  ]

  running_verdict-IsNamed : IsNamed (running_verdict n s)
  unfolding running_verdict
  running_verdict-IsNamed =
      go (running_loop s.container_statuses (start_verdict s)) refl
        (running_loop-IsNamed s.container_statuses (start_verdict s))
    where
      go :
          (o : Option Verdict)
          → running_loop s.container_statuses (start_verdict s) ≡ o
          → IsNamed? o
          → IsNamed (running_verdict n s)
      go none e h =
          rw (e, running_verdict) (ground (arith, eq_iff "NotReady" "", eq_iff "Running" ""))
      go (some v) e h = rw (e, running_verdict) h

  failed_verdict-IsNamed : IsNamed (failed_verdict s)
  unfolding failed_verdict
  failed_verdict-IsNamed = ground (
    arith,
    eq_iff "Error" "",
    failed_loop-IsNamed s.container_statuses (start_verdict s) start-IsNamed,
  )

  primary_verdict-IsNamed : (m : Metadata) → IsNamed (primary_verdict m n s)
  unfolding primary_verdict
  primary_verdict-IsNamed m = ground (
    arith,
    eq_iff "Terminating" "",
    eq_iff "Completed" "",
    start-IsNamed,
    pending_verdict-IsNamed,
    running_verdict-IsNamed,
    failed_verdict-IsNamed,
    init_loop-IsNamed s.init_container_statuses (start_verdict s) start-IsNamed,
  )

-- The status of a pod's row is never the empty text, whatever the watched object holds.
pod_verdict-ne-blank : (m : Metadata) (n : ℕ) (s : PodStatus) → (pod_verdict m n s).status ≢ ""
unfolding pod_verdict
pod_verdict-ne-blank m n s = ground (arith, primary_verdict-IsNamed n s m)

-- A deletion timestamp decides: the status is "Terminating", whatever the phase and the containers.
pub pod_verdict_terminating :
    (m : Metadata) (n : ℕ) (s : PodStatus)
    → has_text m.deletion_timestamp ≡ true
    → (pod_verdict m n s).status ≡ "Terminating"
unfolding pod_verdict
pod_verdict_terminating m n s h = ground arith
