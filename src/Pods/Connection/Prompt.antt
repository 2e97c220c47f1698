-- ===== src/Pods/Connection/Prompt.antt =====
-- Runs in which the sockets that the hook has let go of close before it connects again.
use pertisk_kube_app.Base.{
  ℕ, ◌≡◌, refl, sym, subst, Bool, true, false, ◌⊎◌, inl, inr, Option, none, some, List, [], ◌∷◌,
  arith, if◌then◌else◌, Bool-cases, Option-cases,
}
use pertisk_kube_app.Socket.{WebSocket, socket_at, is_connecting, is_closed}
use pertisk_kube_app.Pods.Connection.{
  Link, unconnected, set_timer, connect, close_open, Event, effect_ran, cleaned_up, timer_fired,
  orphan_fired, went_stale, opened, closed_at, at_connecting, at_unclosed, at_orphans, step, run,
}
use pertisk_kube_app.Pods.Connection.Single.{
  IsSingle, IsPrompt, IsSingle-unconnected, put-IsSingle, connect-IsSingle, on_close-IsSingle,
  on_open-IsSingle, disconnect-IsSingle,
}

effect_ran-IsSingle :
    (s : Link) → IsSingle s → s.mounted ≡ false → IsSingle (set_timer (record s { mounted = true }))
effect_ran-IsSingle s v out =
    let (free, idle) = v.unmounted out in
    record {
      live = v.live;
      waits = λ h. free;
      no_orphan = rw (idle, v.no_orphan);
      let_go = v.let_go;
      unmounted = λ h. cc;
    }

timer_fired-IsSingle :
    (s : Link) → IsSingle s → s.timer ≡ true → IsSingle (connect (record s { timer = false }))
timer_fired-IsSingle s v fires =
    connect-IsSingle (record s { timer = false })
      (record {
        live = v.live;
        waits = λ h. v.waits fires;
        no_orphan = v.no_orphan;
        let_go = v.let_go;
        unmounted = λ h. ((v.unmounted h).0, refl);
      })
      refl (v.waits fires)
      (elim (Bool-cases s.mounted) [ inl e ↦ e | inr e ↦ let idle = (v.unmounted e).1 in cc ])

at_connecting-IsSingle :
    (i : ℕ) (o : Option WebSocket) (s : Link)
    → socket_at s.sockets i ≡ o
    → IsSingle s
    → IsSingle (at_connecting i o s)
unfolding at_connecting
at_connecting-IsSingle i none s e v = v
at_connecting-IsSingle i (some w) s e v = elim (Bool-cases (is_connecting w.ready)) [
  | inl waits ↦ rw waits (on_open-IsSingle i w s v e waits)
  | inr other ↦ rw other v
]

at_unclosed-IsSingle :
    (i : ℕ) (o : Option WebSocket) (s : Link)
    → (s.current ≡ some i) ⊎ (s.intentional ≡ true)
    → IsSingle s
    → IsSingle (at_unclosed i o s)
unfolding at_unclosed
at_unclosed-IsSingle i none s prompt v = v
at_unclosed-IsSingle i (some w) s prompt v = elim (Bool-cases (is_closed w.ready)) [
  | inl done ↦ rw done v
  | inr other ↦ rw other (on_close-IsSingle i w s v prompt)
]

if-IsSingle :
    (b : Bool) (s t : Link)
    → (b ≡ true → IsSingle s)
    → (b ≡ false → IsSingle t)
    → IsSingle (if b then s else t)
if-IsSingle true s t h k = h refl
if-IsSingle false s t h k = k refl

step-IsSingle : (e : Event) (s : Link) → IsPrompt e s → IsSingle s → IsSingle (step e s)
unfolding step
step-IsSingle effect_ran s prompt v =
    if-IsSingle s.mounted s _ (λ e. v) (λ e. effect_ran-IsSingle s v e)
step-IsSingle cleaned_up s prompt v =
    if-IsSingle s.mounted _ s (λ e. disconnect-IsSingle s v) (λ e. v)
step-IsSingle timer_fired s prompt v =
    if-IsSingle s.timer _ s (λ e. timer_fired-IsSingle s v e) (λ e. v)
step-IsSingle orphan_fired s prompt v = subst (λ n. IsSingle (at_orphans n s)) (sym v.no_orphan) v
step-IsSingle went_stale s prompt v = elim (Option-cases s.watchdog) [
  | inl e ↦ rw (e, step) v
  | inr (i, e) ↦ rw (e, step) (put-IsSingle close_open i s (λ u at l. ground arith) v)
]
step-IsSingle (opened i) s prompt v = at_connecting-IsSingle i (socket_at s.sockets i) s refl v
step-IsSingle (closed_at i) s prompt v = at_unclosed-IsSingle i (socket_at s.sockets i) s prompt v

-- Every event of the run is prompt where it happens.
abbrev pub IsPromptRun : List Event → Link → Type 0
IsPromptRun [] s = Unit
IsPromptRun (e ∷ es) s = IsPrompt e s × IsPromptRun es (step e s)

run_from-IsSingle :
    (es : List Event) (s : Link) → IsPromptRun es s → IsSingle s → IsSingle (run es s)
unfolding run
run_from-IsSingle [] s prompt v = v
run_from-IsSingle (e ∷ es) s (now, later) v =
    run_from-IsSingle es (step e s) later (step-IsSingle e s now v)

-- In every run in which a socket that closes is the current one, or was let go and the hook has not
-- connected since, the pod hook has at most one live socket, which is the current one; it waits to
-- connect only without a socket, and has no timer that its cleanup would not clear.
pub run-IsSingle : (es : List Event) → IsPromptRun es unconnected → IsSingle (run es unconnected)
run-IsSingle es prompt = run_from-IsSingle es unconnected prompt IsSingle-unconnected
