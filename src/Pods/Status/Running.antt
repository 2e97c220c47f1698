-- ===== src/Pods/Status/Running.antt =====
-- What a running pod's status says of its containers.
use pertisk_kube_app.Base.{
  ℕ, String, ◌≡◌, ◌≢◌, refl, true, false, inl, inr, Option, none, some, List, [], ◌∷◌, ◌++◌, ◌∙◌,
  subst, ap, arith, eq_iff, if◌then◌else◌, Bool-cases, Option-cases, ltb,
}
use pertisk_kube_app.Base.Text.{trim}
use pertisk_kube_app.Base.Lists.{All}
use pertisk_kube_app.Pods.Raw.{ContainerStatus, Waiting, Terminated, Metadata, PodStatus, has_text}
use pertisk_kube_app.Pods.Status.Errors.{
  describe, describe-ne-blank, set_last_error-describe, status-fallback_error, fallback_error_keeps,
}
use pertisk_kube_app.Pods.Status.{
  Verdict, running_loop, running_state, running_terminated, running_verdict, primary_verdict,
  pod_verdict, fallback_error, start_verdict, ready_count, total_count, is_error_reason, fail_with,
}

-- A container of a running pod that is in trouble: it waits for one of the listed error reasons,
-- or, while it does not wait, it has terminated with a reason other than "Completed".
pub data Fails (c : ContainerStatus) (reason : String) (message : Option String) : Type 0 where
  waits :
      (w : Waiting)
      → c.state.waiting ≡ some w
      → w.reason ≡ some reason
      → w.message ≡ message
      → is_error_reason reason ≡ true
      → Fails c reason message
  terminated :
      (t : Terminated)
      → c.state.waiting ≡ none
      → c.state.terminated ≡ some t
      → t.reason ≡ some reason
      → t.message ≡ message
      → reason ≢ ""
      → reason ≢ "Completed"
      → Fails c reason message

abbrev pub IsSound : ContainerStatus → Type 0
IsSound c = (reason : String) (message : Option String) → ¬ Fails c reason message

reason-ne-blank : (r : String) → is_error_reason r ≡ true → r ≢ ""
unfolding is_error_reason
reason-ne-blank r h e = cc (subst (λ x. is_error_reason x ≡ true) e h)

running_state-Fails :
    (c : ContainerStatus) (v : Verdict) (rest : Option Verdict) {r : String} {m : Option String}
    → Fails c r m
    → running_state c.state v rest ≡ some (fail_with r (some r) m v)
unfolding running_state running_terminated
running_state-Fails c v rest {r} (waits w e er em listed) =
    rw (e, er, em) (ground (arith, eq_iff r "", reason-ne-blank r listed))
running_state-Fails c v rest {r} (terminated t e et er em named other) =
    rw (e, et, er, em) (ground (arith, eq_iff r "", eq_iff r "Completed"))

running_state-IsSound :
    (c : ContainerStatus) (v : Verdict) (rest : Option Verdict)
    → IsSound c
    → running_state c.state v rest ≡ rest
unfolding running_state running_terminated
running_state-IsSound c v rest sound = elim (Option-cases c.state.waiting) [
  | inr (w, e) ↦ elim (Option-cases w.reason) [
    | inl er ↦ rw (e, er) refl
    | inr (r, er) ↦ elim (Bool-cases (is_error_reason r)) [
      | inl listed ↦ absurd (sound r w.message (waits w e er refl listed))
      | inr other ↦ rw (e, er) (ground (arith, eq_iff r ""))
    ]
  ]
  | inl e ↦ elim (Option-cases c.state.terminated) [
    | inl et ↦ rw (e, et) refl
    | inr (t, et) ↦ elim (Option-cases t.reason) [
      | inl er ↦ rw (e, et, er) refl
      | inr (r, er) ↦
          rw (e, et, er)
            (ground (
              arith,
              eq_iff r "",
              eq_iff r "Completed",
              λ (p : r ≢ "") (q : r ≢ "Completed").
                  sound r t.message (terminated t e et er refl p q),
            ))
    ]
  ]
]

running_loop-IsSound :
    (cs : List ContainerStatus) (v : Verdict) → All IsSound cs → running_loop cs v ≡ none
unfolding running_loop
running_loop-IsSound [] v h = refl
running_loop-IsSound (c ∷ cs) v h =
    running_state-IsSound c v (running_loop cs v) h.0 ∙ running_loop-IsSound cs v h.1

running_loop-Fails :
    (before : List ContainerStatus) (c : ContainerStatus) (after : List ContainerStatus)
    (v : Verdict) {r : String} {m : Option String}
    → All IsSound before
    → Fails c r m
    → running_loop (before ++ c ∷ after) v ≡ some (fail_with r (some r) m v)
unfolding running_loop
running_loop-Fails [] c after v h f = running_state-Fails c v (running_loop after v) f
running_loop-Fails (b ∷ bs) c after v h f =
    running_state-IsSound b v (running_loop (bs ++ c ∷ after) v) h.0
    ∙ running_loop-Fails bs c after v h.1 f

abbrev pub IsRunning : Metadata → PodStatus → Type 0
IsRunning m s = (has_text m.deletion_timestamp ≡ false) × (s.phase ≡ some "Running")

primary_running :
    (m : Metadata) (n : ℕ) (s : PodStatus)
    → IsRunning m s
    → primary_verdict m n s ≡ running_verdict n s
unfolding primary_verdict
primary_running m n s (alive, phase) = rw (alive, phase) (ground arith)

-- A running pod that is not being deleted and has no failing container is "Running", or "NotReady"
-- while fewer containers are ready than there are.
pub pod_verdict_running_sound :
    (m : Metadata) (n : ℕ) (s : PodStatus)
    → IsRunning m s
    → All IsSound s.container_statuses
    → (pod_verdict m n s).status
      ≡ (if ltb (ready_count s) (total_count n s) then "NotReady" else "Running")
unfolding pod_verdict running_verdict
pod_verdict_running_sound m n s run sound =
    status-fallback_error s (primary_verdict m n s)
    ∙ rw (
      primary_running m n s run,
      running_verdict,
      running_loop-IsSound s.container_statuses (start_verdict s) sound,
    )

-- A running pod that is not being deleted shows the reason of its first failing container as its
-- status, and the trimmed reason and message of that container as its error, unless the reason is
-- white space only.
pub pod_verdict_running-Fails :
    (m : Metadata) (n : ℕ) (s : PodStatus) (before : List ContainerStatus) (c : ContainerStatus)
    (after : List ContainerStatus) (reason : String) (message : Option String)
    → IsRunning m s
    → s.container_statuses ≡ before ++ c ∷ after
    → All IsSound before
    → Fails c reason message
    → trim reason ≢ ""
    → pod_verdict m n s ≡ record { status = reason; last_error = some (describe reason message) }
unfolding pod_verdict running_verdict
pod_verdict_running-Fails m n s before c after reason message run split sound fails named =
    ap (fallback_error s) verdict
    ∙ fallback_error_keeps s _ (describe-ne-blank reason message named)
  where
    loop :
        running_loop s.container_statuses (start_verdict s)
        ≡ some (fail_with reason (some reason) message (start_verdict s))
    loop =
        ap (λ l. running_loop l (start_verdict s)) split
        ∙ running_loop-Fails before c after (start_verdict s) sound fails

    verdict :
        primary_verdict m n s
        ≡ record { status = reason; last_error = some (describe reason message) }
    verdict =
        primary_running m n s run
        ∙ rw (running_verdict, loop, set_last_error-describe reason message named)
