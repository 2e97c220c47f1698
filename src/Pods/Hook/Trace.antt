-- ===== src/Pods/Hook/Trace.antt =====
-- The invariant of the pod list over any sequence of events.
use pertisk_kube_app.Base.{
  String, ◌≡◌, ◌≢◌, refl, true, false, not, ◌&&◌, inl, inr, Option, none, some, List, [], ◌∷◌,
  arith, eq_iff, ◌==◌, Bool-cases,
}
use pertisk_kube_app.Base.Json.{str}
use pertisk_kube_app.Base.Lists.{All}
use pertisk_kube_app.Base.Text.{member}
use pertisk_kube_app.Base.Distinct.{Distinct, All-of-member, member-of-All}
use pertisk_kube_app.Pods.Raw.{or_text}
use pertisk_kube_app.Pods.Row.{Pod, RawPod, key_of, transform_pod}
use pertisk_kube_app.Pods.Merge.{Action, added, modified, deleted, normalize_watch_action}
use pertisk_kube_app.Pods.Keys.{NoSlash, IsClean}
use pertisk_kube_app.Pods.Invariant.{
  IsValid, on_added-IsValid, on_modified-IsValid, on_deleted-IsValid, member-mark,
}
use pertisk_kube_app.Pods.Reducer.{apply_event, unmark}
use pertisk_kube_app.Pods.Sync.{keys}
use pertisk_kube_app.Pods.Sync.Rows.{sync-IsValid, member-sync}
use pertisk_kube_app.Pods.Hook.{
  State, initial, Response, thrown, status, listed, Event, updated, subscribed, server_error,
  empty_timeout, socket_opened, socket_refused, mark_timeout, synced, cluster_switched, on_action,
  on_response, step, run,
}

-- What Kubernetes promises of an event: no slash in a namespace, and one entry for a pod in a list.
abbrev pub IsRegular : Event → Type 0
IsRegular (updated action raw) = NoSlash (or_text raw.metadata.namespace "")
IsRegular (synced (listed api)) = All IsClean api × Distinct (keys api)
IsRegular _ = Unit

abbrev pub IsSound : State → Type 0
IsSound s = IsValid s.rows s.marked

pub member-unmark :
    (k j : String) (ks : List String) → member k (unmark j ks) ≡ (member k ks && not (k == j))
unfolding unmark
member-unmark k j [] = refl
member-unmark k j (i ∷ ks) =
    ground (arith, member-unmark k j ks, eq_iff i j, eq_iff i k, eq_iff k j)

unmark-IsValid :
    (j : String) (rows : List Pod) (marked : List String)
    → IsValid rows marked
    → IsValid rows (unmark j marked)
unmark-IsValid j rows marked v = record {
  clean = v.clean;
  distinct = v.distinct;
  unmarked =
      All-of-member (λ k. member k (unmark j marked)) (keys rows)
        (λ k m. ground (
          arith,
          member-unmark k j marked,
          member-of-All (λ i. member i marked) (keys rows) k v.unmarked,
        ));
}

apply_event-IsValid :
    (action : Action) (pod : Pod) (rows : List Pod) (marked : List String)
    → IsClean pod
    → IsValid rows marked
    → IsValid (apply_event action pod (rows, marked)).0 (apply_event action pod (rows, marked)).1
unfolding apply_event
apply_event-IsValid added pod rows marked c v = on_added-IsValid marked pod rows c v
apply_event-IsValid modified pod rows marked c v = on_modified-IsValid marked pod rows c v
apply_event-IsValid deleted pod rows marked c v = on_deleted-IsValid marked pod rows c v

IsClean-transform_pod :
    (raw : RawPod) → NoSlash (or_text raw.metadata.namespace "") → IsClean (transform_pod raw)
unfolding transform_pod
IsClean-transform_pod raw c = c

on_action-IsSound :
    (o : Option Action) (raw : RawPod) (s : State)
    → NoSlash (or_text raw.metadata.namespace "")
    → IsSound s
    → IsSound (on_action o raw s)
unfolding on_action
on_action-IsSound none raw s c v = v
on_action-IsSound (some action) raw s c v =
    apply_event-IsValid action (transform_pod raw) s.rows s.marked (IsClean-transform_pod raw c) v

on_response-IsSound :
    (r : Response) (s : State) → IsRegular (synced r) → IsSound s → IsSound (on_response r s)
unfolding on_response
on_response-IsSound thrown s reg v = v
on_response-IsSound (status code) s reg v = ground arith
on_response-IsSound (listed api) s (c, d) v = sync-IsValid s.counts s.marked api s.rows c d v

IsSound-initial : IsSound initial
IsSound-initial = record { clean = tt; distinct = tt; unmarked = tt }

pub step-IsSound : (e : Event) (s : State) → IsRegular e → IsSound s → IsSound (step e s)
unfolding step
step-IsSound (updated action raw) s reg v =
    on_action-IsSound (normalize_watch_action action) raw _ reg v
step-IsSound subscribed s reg v = v
step-IsSound (server_error message) s reg v = v
step-IsSound empty_timeout s reg v = ground arith
step-IsSound socket_opened s reg v = v
step-IsSound socket_refused s reg v = v
step-IsSound (mark_timeout key) s reg v = unmark-IsValid key s.rows s.marked v
step-IsSound (synced r) s reg v = on_response-IsSound r s reg v
step-IsSound cluster_switched s reg v = IsSound-initial

pub run-IsSound_from :
    (es : List Event) (s : State) → All IsRegular es → IsSound s → IsSound (run es s)
unfolding run
run-IsSound_from [] s reg v = v
run-IsSound_from (e ∷ es) s (r, reg) v = run-IsSound_from es (step e s) reg (step-IsSound e s r v)

-- After any events whose namespaces hold no slash and whose REST lists name no pod twice, in any
-- order, the hook lists a pod at most once and lists no pod that is marked as recently deleted.
pub run-IsSound : (es : List Event) → All IsRegular es → IsSound (run es initial)
run-IsSound es reg = run-IsSound_from es initial reg IsSound-initial

-- After any such events, a reconciliation with a REST list shows exactly the pods of that list
-- that are not marked as recently deleted: a pod that the list misses once is gone at once.
pub keys-synced :
    (es : List Event) (api : List Pod) (k : String)
    → All IsRegular es
    → member k (keys (step (synced (listed api)) (run es initial)).rows)
      ≡ (member k (keys api) && not (member k (run es initial).marked))
unfolding step on_response
keys-synced es api k reg =
    let s = run es initial in
    ground (
      arith,
      member-sync s.counts s.marked api s.rows k,
      member-of-All (λ j. member j s.marked) (keys s.rows) k (run-IsSound es reg).unmarked,
    )

-- The mark of a deleted pod stays while its timer does not fire and the cluster is not switched.
abbrev pub KeepsMark : String → Event → Type 0
KeepsMark k (mark_timeout j) = k ≢ j
KeepsMark k cluster_switched = ⊥
KeepsMark k _ = Unit

member-apply_event :
    (k : String) (action : Action) (pod : Pod) (rows : List Pod) (marked : List String)
    → member k marked ≡ true
    → member k (apply_event action pod (rows, marked)).1 ≡ true
unfolding apply_event
member-apply_event k added pod rows marked h = h
member-apply_event k modified pod rows marked h = h
member-apply_event k deleted pod rows marked h = ground (arith, member-mark k (key_of pod) marked)

step-KeepsMark :
    (k : String) (e : Event) (s : State)
    → KeepsMark k e
    → member k s.marked ≡ true
    → member k (step e s).marked ≡ true
unfolding step on_action on_response
step-KeepsMark k (updated action raw) s keep h =
    elim (normalize_watch_action action)
      as (λ o.
        member k
          (on_action o raw (record s {
            empty_timer = false;
            has_fetched = true;
            is_loading = false;
            empty_confirmed = false;
          })).marked
        ≡ true) [ none ↦ h | some a ↦ member-apply_event k a (transform_pod raw) s.rows s.marked h ]
step-KeepsMark k subscribed s keep h = h
step-KeepsMark k (server_error message) s keep h = h
step-KeepsMark k empty_timeout s keep h = ground arith
step-KeepsMark k socket_opened s keep h = h
step-KeepsMark k socket_refused s keep h = h
step-KeepsMark k (mark_timeout j) s keep h = ground (arith, member-unmark k j s.marked, eq_iff k j)
step-KeepsMark k (synced thrown) s keep h = h
step-KeepsMark k (synced (status code)) s keep h = ground arith
step-KeepsMark k (synced (listed api)) s keep h = h
step-KeepsMark k cluster_switched s keep h = absurd keep

run-KeepsMark :
    (k : String) (es : List Event) (s : State)
    → All (KeepsMark k) es
    → member k s.marked ≡ true
    → member k (run es s).marked ≡ true
unfolding run
run-KeepsMark k [] s keep h = h
run-KeepsMark k (e ∷ es) s (keep, rest) h =
    run-KeepsMark k es (step e s) rest (step-KeepsMark k e s keep h)

deleted-marks :
    (raw : RawPod) (s : State)
    → member (key_of (transform_pod raw)) (step (updated (str "DELETED") raw) s).marked ≡ true
unfolding step on_action apply_event normalize_watch_action
deleted-marks raw s = ground (
  arith,
  member-mark (key_of (transform_pod raw)) (key_of (transform_pod raw)) s.marked,
  eq_iff (key_of (transform_pod raw)) (key_of (transform_pod raw)),
)

-- From a sound state, once a DELETED event has arrived for a pod it is not listed, whatever
-- regular events follow (late watch events and stale REST lists that name the pod among them),
-- until its mark's timer fires or the cluster is switched.
pub deleted_stays_gone :
    (raw : RawPod) (es : List Event) (s : State)
    → IsSound s
    → IsRegular (updated (str "DELETED") raw)
    → All IsRegular es
    → All (KeepsMark (key_of (transform_pod raw))) es
    → member
        (key_of (transform_pod raw))
        (keys (run es (step (updated (str "DELETED") raw) s)).rows)
      ≡ false
deleted_stays_gone raw es s v reg regs keep =
    let key = key_of (transform_pod raw) in
    let t = step (updated (str "DELETED") raw) s in
    let sound = run-IsSound_from es t regs (step-IsSound (updated (str "DELETED") raw) s reg v) in
    elim (Bool-cases (member key (keys (run es t).rows))) [
      | inr gone ↦ gone
      | inl there ↦
          let free =
            member-of-All (λ j. member j (run es t).marked) (keys (run es t).rows) key
              sound.unmarked there in
          let marked = run-KeepsMark key es t keep (deleted-marks raw s) in cc (free, marked)
    ]
