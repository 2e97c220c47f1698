-- ===== src/Restart/All/Accounts.antt =====
-- The report of a restart of all workloads accounts for each of them.
use mathlib.Core.List.{append-nil, append_assoc}
use pertisk_kube_app.Base.{
  ◌≡◌, ◌↔◌, refl, sym, ap, subst, ◌∙◌, suc, arith, ℕ, ◌+◌, String, Bool, true, false, List, [], ◌∷◌,
  ◌++◌,
}
use pertisk_kube_app.Base.Json.{Json}
use pertisk_kube_app.Restart.Requests.{
  Outcome, returned, thrown, WorkloadKind, deployment, stateful_set, daemon_set, Workload, Failure,
  Report, HttpResponse, Request, M,
}
use pertisk_kube_app.Restart.All.{
  failure_of, restart_each, restart_deployment, restart_via_yaml, by_namespace, wanted_namespaces,
  restart_lists,
}

module _ {S : Type 0} (fetch : Request → S → Outcome HttpResponse × S)
    (parse : String → Outcome Json) (stringify : Json → String) (type_error : String)
    (at : String) where
  abbrev pub entry : WorkloadKind → Workload → String → Failure
  entry = failure_of fetch parse stringify type_error at

  module _ (kind : WorkloadKind) (restart : Workload → M S (Unit {0})) where
    -- `Accounted ws s fs n s'`: from the state `s` the workloads are restarted in order, to the state
    -- `s'`. The `n` ones whose restart returns are counted, and `fs` are the failures of the others, with
    -- what their restart throws.
    pub data Accounted : List Workload → S → List Failure → ℕ → S → Type 0 where
      all_done : {s : S} → Accounted [] s [] 0 s
      restarted :
          {ws : List Workload} {fs : List Failure} {n : ℕ} {s s' : S} (w : Workload)
          → (restart w s).0 ≡ returned tt
          → Accounted ws (restart w s).1 fs n s'
          → Accounted (w ∷ ws) s fs (suc n) s'
      refused :
          {ws : List Workload} {fs : List Failure} {n : ℕ} {s s' : S} (w : Workload) (e : String)
          → (restart w s).0 ≡ thrown e
          → Accounted ws (restart w s).1 fs n s'
          → Accounted (w ∷ ws) s (entry kind w e ∷ fs) n s'

    abbrev each : List Workload → ℕ → List Failure → S → (ℕ × List Failure) × S
    each = restart_each fetch parse stringify type_error at kind restart

    -- What the loop over some workloads makes of a count, the failures and the state.
    record Ends (ws : List Workload) (count : ℕ) (failed : List Failure) (s : S)
        (out : (ℕ × List Failure) × S) : Type 0 where
      more : List Failure
      done : ℕ
      failed_after : out.0.1 ≡ failed ++ more
      counted : out.0.0 ≡ count + done
      accounted : Accounted ws s more done out.1

    each-Ends :
        (ws : List Workload) (count : ℕ) (failed : List Failure) (s : S)
        → Ends ws count failed s (each ws count failed s)
    unfolding restart_each
    each-Ends [] count failed s = record {
      more = [];
      done = 0;
      failed_after = sym (append-nil failed);
      counted = omega arith;
      accounted = all_done;
    }
    each-Ends (w ∷ ws) count failed s =
        after (restart w s).0 refl (each-Ends ws (count + 1) failed s')
          (λ e. each-Ends ws count (failed ++ entry kind w e ∷ []) s')
      where
        s' : S
        s' = (restart w s).1

        after :
            (o : Outcome (Unit {0}))
            → (restart w s).0 ≡ o
            → Ends ws (count + 1) failed s' (each ws (count + 1) failed s')
            → ((e : String)
                → Ends ws count
                    (failed ++ entry kind w e ∷ [])
                    s'
                    (each ws count (failed ++ entry kind w e ∷ []) s'))
            → Ends (w ∷ ws) count failed s (elim o as (λ _. (ℕ × List Failure) × S) [
              | returned _ ↦ each ws (count + 1) failed s'
              | thrown e ↦ each ws count (failed ++ entry kind w e ∷ []) s'
            ])
        after (returned u) gave a b = record {
          more = a.more;
          done = suc a.done;
          failed_after = a.failed_after;
          counted = omega (arith, a.counted);
          accounted = restarted w gave a.accounted;
        }
        after (thrown e) gave a' b =
            let a = b e in
            record {
              more = entry kind w e ∷ a.more;
              done = a.done;
              failed_after = a.failed_after ∙ append_assoc failed (entry kind w e ∷ []) a.more;
              counted = a.counted;
              accounted = refused w e gave a.accounted;
            }

    from_zero :
        {ws : List Workload} {s s' : S} {fs : List Failure} (done n : ℕ)
        → n ≡ 0 + done
        → Accounted ws s fs done s'
        → Accounted ws s fs n s'
    from_zero {ws} {s} {s'} {fs} done n e a =
        let same : done ≡ n = omega arith in subst (λ k. Accounted ws s fs k s') same a

  -- The restart of a kind of workload
  abbrev restart_of : WorkloadKind → Workload → M S (Unit {0})
  restart_of deployment = restart_deployment fetch parse stringify type_error at
  restart_of stateful_set = restart_via_yaml fetch parse stringify type_error at stateful_set
  restart_of daemon_set = restart_via_yaml fetch parse stringify type_error at daemon_set

  abbrev wanted : List String → List Workload → List Workload
  wanted namespaces =
      by_namespace fetch parse stringify type_error at
        (wanted_namespaces fetch parse stringify type_error at namespaces)

  -- The end of the restart of the workloads of three lists, from a state: each list from the state in
  -- which the one before it ends.
  pub record Reports (namespaces : List String) (xs ys zs : List Workload) (failed : List Failure)
      (s : S) (r : Report) (s' : S) : Type 0 where
    pub of_deployments : List Failure
    pub of_stateful_sets : List Failure
    pub of_daemon_sets : List Failure
    pub first : S
    pub second : S
    pub deployments :
        Accounted deployment
          (restart_of deployment)
          (wanted namespaces xs)
          s
          of_deployments
          r.deployments
          first
    pub stateful_sets :
        Accounted stateful_set
          (restart_of stateful_set)
          (wanted namespaces ys)
          first
          of_stateful_sets
          r.stateful_sets
          second
    pub daemon_sets :
        Accounted daemon_set
          (restart_of daemon_set)
          (wanted namespaces zs)
          second
          of_daemon_sets
          r.daemon_sets
          s'
    pub all_failed : r.failed ≡ ((failed ++ of_deployments) ++ of_stateful_sets) ++ of_daemon_sets
    pub all_restarted : r.total ≡ r.deployments + r.stateful_sets + r.daemon_sets
    pub succeeds : (r.success ≡ true) ↔ (r.failed ≡ [])

  none_failed :
      (fs : List Failure)
      → (elim fs as (λ _. Bool) [ [] ↦ true | _ ∷ _ ↦ false ] ≡ true) ↔ (fs ≡ [])
  none_failed [] = (λ e. refl, λ e. refl)
  none_failed (f ∷ fs) = (λ e. cc, λ e. cc)

  -- The loop over the workloads of a kind.
  abbrev loop : WorkloadKind → List Workload → ℕ → List Failure → S → (ℕ × List Failure) × S
  loop kind = restart_each fetch parse stringify type_error at kind (restart_of kind)

-- Whatever the server answers, the restart of the workloads of three lists goes through all of those in
-- the wanted namespaces, in order: those whose restart returns are counted, and each of those whose
-- restart throws has a failure in the report, with the text that is thrown, in order, after the
-- failures of the lists. The total is the sum of the counts, and success says that there is no failure.
pub restart_lists-Reports :
    {S : Type 0} (fetch : Request → S → Outcome HttpResponse × S) (parse : String → Outcome Json)
    (stringify : Json → String) (type_error at : String) (namespaces : List String)
    (xs ys zs : List Workload) (failed : List Failure) (s : S)
    → let out = restart_lists fetch parse stringify type_error at namespaces xs ys zs failed s in
      Reports fetch parse stringify type_error at namespaces xs ys zs failed s out.0 out.1
unfolding restart_lists
restart_lists-Reports {S} fetch parse stringify type_error at namespaces xs ys zs failed s =
    let keep : List Workload → List Workload =
      wanted fetch parse stringify type_error at namespaces in
    let loops : WorkloadKind → List Workload → ℕ → List Failure → S → (ℕ × List Failure) × S =
      loop fetch parse stringify type_error at in
    let of : WorkloadKind → Workload → M S (Unit {0}) =
      restart_of fetch parse stringify type_error at in
    let out₁ = loops deployment (keep xs) 0 failed s in
    let out₂ = loops stateful_set (keep ys) 0 out₁.0.1 out₁.1 in
    let a =
      each-Ends fetch parse stringify type_error at deployment (of deployment) (keep xs) 0 failed
        s in
    let b =
      each-Ends fetch parse stringify type_error at stateful_set (of stateful_set) (keep ys) 0
        out₁.0.1 out₁.1 in
    let c =
      each-Ends fetch parse stringify type_error at daemon_set (of daemon_set) (keep zs) 0 out₂.0.1
        out₂.1 in
    record {
      of_deployments = a.more;
      of_stateful_sets = b.more;
      of_daemon_sets = c.more;
      first = out₁.1;
      second = out₂.1;
      deployments =
          from_zero fetch parse stringify type_error at deployment (of deployment) a.done _
            a.counted a.accounted;
      stateful_sets =
          from_zero fetch parse stringify type_error at stateful_set (of stateful_set) b.done _
            b.counted b.accounted;
      daemon_sets =
          from_zero fetch parse stringify type_error at daemon_set (of daemon_set) c.done _
            c.counted c.accounted;
      all_failed =
          c.failed_after
          ∙ ap (λ l. l ++ c.more) (b.failed_after ∙ ap (λ l. l ++ b.more) a.failed_after);
      all_restarted = refl;
      succeeds = none_failed fetch parse stringify type_error at _;
    }
