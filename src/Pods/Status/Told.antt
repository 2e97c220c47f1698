-- ===== src/Pods/Status/Told.antt =====
-- Every assignment of `lastErrorMessage` on the way through `transformPod` leaves it unset or
-- with a text.
use pertisk_kube_app.Base.{
  ℕ, String, ◌≡◌, ◌≢◌, refl, Bool, inl, inr, Option, none, some, List, [], ◌∷◌, arith, Option-cases,
  ltb,
}
use pertisk_kube_app.Base.Lists.{find}
use pertisk_kube_app.Pods.Raw.{ContainerStatus, ContainerState, Terminated, Metadata, PodStatus}
use pertisk_kube_app.Pods.Status.Errors.{
  IsTold, set_last_error-IsTold, error_from_conditions-IsTold,
}
use pertisk_kube_app.Pods.Status.{
  Verdict, set_last_error, init_loop, init_state, init_terminated, pending_loop, pending_state,
  running_loop, running_state, running_terminated, failed_loop, failed_state, pending_verdict,
  pending_containers, running_verdict, failed_verdict, primary_verdict, pod_verdict, start_verdict,
  or_creating, is_scheduled_condition, ready_count, total_count,
}

abbrev Told : Verdict → Type 0
Told v = IsTold v.last_error

abbrev Told? : Option Verdict → Type 0
Told? none = Unit
Told? (some v) = Told v

module _ (v : Verdict) (told : Told v) where
  set-Told : (r m : Option String) → IsTold (set_last_error v.last_error r m)
  set-Told r m = set_last_error-IsTold v.last_error r m told

  init_terminated-Told :
      (t : Option Terminated) (rest : Verdict) → Told rest → Told (init_terminated t v rest)
  unfolding init_terminated
  init_terminated-Told none rest h = h
  init_terminated-Told (some t) rest h = ground (arith, set-Told t.reason t.message)

  init_state-Told : (s : ContainerState) (rest : Verdict) → Told rest → Told (init_state s v rest)
  unfolding init_state
  init_state-Told s rest h = elim (Option-cases s.waiting) [
    | inl e ↦ rw e (ground (arith, init_terminated-Told s.terminated rest h))
    | inr (w, e) ↦ rw e (set-Told w.reason w.message)
  ]

  init_loop-Told : (cs : List ContainerStatus) → Told (init_loop cs v)
  unfolding init_loop
  init_loop-Told [] = told
  init_loop-Told (c ∷ cs) = init_state-Told c.state (init_loop cs v) (init_loop-Told cs)

  pending_state-Told :
      (s : ContainerState) (b : Bool) (rest : Option Verdict)
      → Told? rest
      → Told? (pending_state s b v rest)
  unfolding pending_state
  pending_state-Told s b rest h = elim (Option-cases s.waiting) [
    | inl e ↦ rw e (ground arith)
    | inr (w, e) ↦ rw e (ground (arith, set-Told w.reason w.message))
  ]

  pending_loop-Told : (cs : List ContainerStatus) (b : Bool) → Told? (pending_loop cs b v)
  unfolding pending_loop
  pending_loop-Told [] b = tt
  pending_loop-Told (c ∷ cs) b =
      pending_state-Told c.state b (pending_loop cs b v) (pending_loop-Told cs b)

  running_terminated-Told :
      (t : Option Terminated) (rest : Option Verdict)
      → Told? rest
      → Told? (running_terminated t v rest)
  unfolding running_terminated
  running_terminated-Told none rest h = h
  running_terminated-Told (some t) rest h = ground (arith, set-Told t.reason t.message)

  running_state-Told :
      (s : ContainerState) (rest : Option Verdict) → Told? rest → Told? (running_state s v rest)
  unfolding running_state
  running_state-Told s rest h = elim (Option-cases s.waiting) [
    | inl e ↦ rw e (running_terminated-Told s.terminated rest h)
    | inr (w, e) ↦ rw e (ground (arith, set-Told w.reason w.message))
  ]

  running_loop-Told : (cs : List ContainerStatus) → Told? (running_loop cs v)
  unfolding running_loop
  running_loop-Told [] = tt
  running_loop-Told (c ∷ cs) = running_state-Told c.state (running_loop cs v) (running_loop-Told cs)

  failed_state-Told :
      (s : ContainerState) (rest : Verdict) → Told rest → Told (failed_state s v rest)
  unfolding failed_state
  failed_state-Told s rest h = elim (Option-cases s.terminated) [
    | inl e ↦ rw e h
    | inr (t, e) ↦ rw e (ground (arith, set-Told t.reason t.message))
  ]

  failed_loop-Told : (cs : List ContainerStatus) → Told (failed_loop cs v)
  unfolding failed_loop
  failed_loop-Told [] = told
  failed_loop-Told (c ∷ cs) = failed_state-Told c.state (failed_loop cs v) (failed_loop-Told cs)

  or_creating-Told : (o : Option Verdict) → Told? o → Told (or_creating v o)
  unfolding or_creating
  or_creating-Told none h = told
  or_creating-Told (some w) h = h

module _ (n : ℕ) (s : PodStatus) where
  start-Told : Told (start_verdict s)
  start-Told = ground arith

  pending_containers-Told : Told (pending_containers n s)
  unfolding pending_containers
  pending_containers-Told =
      let not_ready = ltb (ready_count s) (total_count n s) in
      ground (
        arith,
        start-Told,
        or_creating-Told (start_verdict s) start-Told
            (pending_loop s.container_statuses not_ready (start_verdict s))
            (pending_loop-Told (start_verdict s) start-Told s.container_statuses not_ready),
      )

  pending_verdict-Told : Told (pending_verdict n s)
  unfolding pending_verdict
  pending_verdict-Told = elim (Option-cases (find is_scheduled_condition s.conditions)) [
    | inl e ↦ rw (e, pending_verdict) pending_containers-Told
    | inr (c, e) ↦
        rw (e, pending_verdict)
          (ground (
            arith,
            set-Told (start_verdict s) start-Told c.reason c.message,
            pending_containers-Told,
          ))
  ]

  running_verdict-Told : Told (running_verdict n s)
  unfolding running_verdict
  running_verdict-Told =
      go (running_loop s.container_statuses (start_verdict s)) refl
        (running_loop-Told (start_verdict s) start-Told s.container_statuses)
    where
      go :
          (o : Option Verdict)
          → running_loop s.container_statuses (start_verdict s) ≡ o
          → Told? o
          → Told (running_verdict n s)
      go none e h = rw (e, running_verdict) start-Told
      go (some v) e h = rw (e, running_verdict) h

  primary_verdict-Told : (m : Metadata) → Told (primary_verdict m n s)
  unfolding primary_verdict failed_verdict
  primary_verdict-Told m = ground (
    arith,
    start-Told,
    pending_verdict-Told,
    running_verdict-Told,
    failed_loop-Told (start_verdict s) start-Told s.container_statuses,
    init_loop-Told (start_verdict s) start-Told s.init_container_statuses,
  )

-- The error message of a pod's row is unset or a text that is not empty.
last_error-pod_verdict-ne-blank :
    (m : Metadata) (n : ℕ) (s : PodStatus) → (pod_verdict m n s).last_error ≢ some ""
unfolding pod_verdict
last_error-pod_verdict-ne-blank m n s =
    let v = primary_verdict m n s in
    let told = primary_verdict-Told n s m in
    let told' = set_last_error-IsTold v.last_error s.reason s.message told in
    ground (
      arith,
      told,
      told',
      error_from_conditions-IsTold s.conditions (set_last_error v.last_error s.reason s.message)
          told',
    )
