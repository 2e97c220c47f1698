-- ===== src/Pods/Invariant.antt =====
-- The invariant of the list of pods: one row for a pod, and no row for a recently deleted pod.
use pertisk_kube_app.Base.{
  String, ◌≡◌, refl, sym, ◌∙◌, false, not, ◌&&◌, ◌||◌, inl, inr, List, [], ◌∷◌, ◌++◌, arith, eq_iff,
  ◌==◌, Bool-cases,
}
use pertisk_kube_app.Base.Lists.{All, All-append, All-filter, any, update_first, update_all}
use pertisk_kube_app.Base.Text.{member}
use pertisk_kube_app.Base.Distinct.{
  Distinct, Distinct-append, eq_comm, All-of-member, member-of-All,
}
use mathlib.Core.List.{map-append}
use pertisk_kube_app.Pods.Row.{Pod, key_of, same_pod}
use pertisk_kube_app.Pods.Merge.{merge_event}
use pertisk_kube_app.Pods.Sync.{keys}
use pertisk_kube_app.Pods.Keys.{
  IsClean, same_pod-eq-key, any-same_pod, keys-update_all, keys-update_first,
}
use pertisk_kube_app.Pods.Reducer.{on_added, on_modified, on_deleted, mark}

pub record IsValid (rows : List Pod) (marked : List String) : Type 0 where
  pub clean : All IsClean rows
  pub distinct : Distinct (keys rows)
  pub unmarked : All (λ k. member k marked ≡ false) (keys rows)

pub keys-append : (xs ys : List Pod) → keys (xs ++ ys) ≡ keys xs ++ keys ys
keys-append xs ys = rw map-append

-- A row at the end, whose key is neither listed nor marked.
pub IsValid-concat :
    (rows : List Pod) (marked : List String) (p : Pod)
    → IsValid rows marked
    → IsClean p
    → member (key_of p) (keys rows) ≡ false
    → member (key_of p) marked ≡ false
    → IsValid (rows ++ p ∷ []) marked
IsValid-concat rows marked p v c fresh free = record {
  clean = All-append IsClean rows (p ∷ []) v.clean (c, tt);
  distinct =
      rw (keys-append rows (p ∷ []))
        (Distinct-append (keys rows) (key_of p ∷ []) v.distinct (refl, tt) (fresh, tt));
  unmarked =
      rw (keys-append rows (p ∷ [])) (
        All-append (λ k. member k marked ≡ false) (keys rows) (key_of p ∷ []) v.unmarked
          (free, tt));
}

pub IsValid-same_keys :
    (rows rows' : List Pod) (marked : List String)
    → IsValid rows marked
    → All IsClean rows'
    → keys rows' ≡ keys rows
    → IsValid rows' marked
IsValid-same_keys rows rows' marked v c e = record {
  clean = c;
  distinct = rw e v.distinct;
  unmarked = rw e v.unmarked;
}

All-update_all :
    (p : Pod) (f : Pod → Pod) (rows : List Pod)
    → ((q : Pod) → IsClean (f q))
    → All IsClean rows
    → All IsClean (update_all (same_pod p) f rows)
All-update_all p f [] hf h = tt
All-update_all p f (q ∷ rows) hf (hq, h) = elim (Bool-cases (same_pod p q)) [
  | inl e ↦ rw e (hf q, All-update_all p f rows hf h)
  | inr e ↦ rw e (hq, All-update_all p f rows hf h)
]

All-update_first :
    (p : Pod) (f : Pod → Pod) (rows : List Pod)
    → ((q : Pod) → IsClean (f q))
    → All IsClean rows
    → All IsClean (update_first (same_pod p) f rows)
All-update_first p f [] hf h = tt
All-update_first p f (q ∷ rows) hf (hq, h) = elim (Bool-cases (same_pod p q)) [
  | inl e ↦ rw e (hf q, h)
  | inr e ↦ rw e (hq, All-update_first p f rows hf h)
]

pub key-merge_event : (p q : Pod) → key_of (merge_event p q) ≡ key_of p
unfolding merge_event
key-merge_event p q = refl

IsClean-merge_event : (p q : Pod) → IsClean p → IsClean (merge_event p q)
unfolding merge_event
IsClean-merge_event p q c = c

pub on_added-IsValid :
    (marked : List String) (p : Pod) (rows : List Pod)
    → IsClean p
    → IsValid rows marked
    → IsValid (on_added marked p rows) marked
unfolding on_added
on_added-IsValid marked p rows c v = elim (Bool-cases (member (key_of p) marked)) [
  | inl e ↦ rw (e, on_added) v
  | inr free ↦ elim (Bool-cases (any (same_pod p) rows)) [
    | inl e ↦
        rw (free, e, on_added)
          (IsValid-same_keys rows _ marked v
            (All-update_all p (merge_event p) rows (λ q. IsClean-merge_event p q c) v.clean)
            (keys-update_all p (merge_event p) (key-merge_event p) c rows v.clean))
    | inr e ↦
        rw (free, e, on_added)
          (IsValid-concat rows marked p v c (sym (any-same_pod p rows c v.clean) ∙ e) free)
  ]
]

pub on_modified-IsValid :
    (marked : List String) (p : Pod) (rows : List Pod)
    → IsClean p
    → IsValid rows marked
    → IsValid (on_modified marked p rows) marked
unfolding on_modified
on_modified-IsValid marked p rows c v = elim (Bool-cases (member (key_of p) marked)) [
  | inl e ↦ rw (e, on_modified) v
  | inr free ↦ elim (Bool-cases (any (same_pod p) rows)) [
    | inl e ↦
        rw (free, e, on_modified)
          (IsValid-same_keys rows _ marked v
            (All-update_first p (merge_event p) rows (λ q. IsClean-merge_event p q c) v.clean)
            (keys-update_first p (merge_event p) (key-merge_event p) c rows v.clean))
    | inr e ↦
        rw (free, e, on_modified)
          (IsValid-concat rows marked p v c (sym (any-same_pod p rows c v.clean) ∙ e) free)
  ]
]

-- The keys that are listed after a deletion: those that were, but for the deleted one.
pub member-on_deleted :
    (p : Pod) (rows : List Pod) (k : String)
    → IsClean p
    → All IsClean rows
    → member k (keys (on_deleted p rows)) ≡ (member k (keys rows) && not (k == key_of p))
unfolding on_deleted
member-on_deleted p [] k c h = refl
member-on_deleted p (q ∷ rows) k c (hq, h) = ground (
  arith,
  member-on_deleted p rows k c h,
  same_pod-eq-key p q c hq,
  eq_iff (key_of q) (key_of p),
  eq_iff (key_of q) k,
  eq_iff k (key_of p),
)

pub member-mark : (k j : String) (ks : List String) → member k (mark j ks) ≡ (j == k || member k ks)
unfolding mark
member-mark k j ks = ground (arith, eq_iff j k)

Distinct-on_deleted :
    (p : Pod) (rows : List Pod)
    → IsClean p
    → All IsClean rows
    → Distinct (keys rows)
    → Distinct (keys (on_deleted p rows))
unfolding on_deleted
Distinct-on_deleted p [] c h d = tt
Distinct-on_deleted p (q ∷ rows) c (hq, h) (fresh, d) = elim (Bool-cases (same_pod p q)) [
  | inl e ↦ rw e (Distinct-on_deleted p rows c h d)
  | inr e ↦
      rw e
        (ground (arith, member-on_deleted p rows (key_of q) c h), Distinct-on_deleted p rows c h d)
]

pub on_deleted-IsValid :
    (marked : List String) (p : Pod) (rows : List Pod)
    → IsClean p
    → IsValid rows marked
    → IsValid (on_deleted p rows) (mark (key_of p) marked)
unfolding on_deleted
on_deleted-IsValid marked p rows c v = record {
  clean = All-filter IsClean (λ q. not (same_pod p q)) rows v.clean;
  distinct = Distinct-on_deleted p rows c v.clean v.distinct;
  unmarked =
      All-of-member (λ k. member k (mark (key_of p) marked)) (keys (on_deleted p rows))
        (λ k m. ground (
          arith,
          member-mark k (key_of p) marked,
          member-on_deleted p rows k c v.clean,
          eq_comm k (key_of p),
          member-of-All (λ j. member j marked) (keys rows) k v.unmarked,
        ));
}
