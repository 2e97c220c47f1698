-- ===== src/Pods/Sync/Rows.antt =====
-- Which pods are listed after a reconciliation with the REST list.
use pertisk_kube_app.Base.{
  String, ◌≡◌, refl, ap, ◌∙◌, Bool, true, false, not, ◌&&◌, ◌||◌, inl, inr, List, [], ◌∷◌, ◌++◌,
  arith, eq_iff, if◌then◌else◌, Option-cases, is_some, leb,
}
use pertisk_kube_app.Base.Lists.{All, All-append, All-cons_if}
use pertisk_kube_app.Base.Text.{member}
use pertisk_kube_app.Base.Distinct.{
  Distinct, Distinct-append, member-append, All-of-member, member-of-All,
}
use pertisk_kube_app.Pods.Row.{Pod, key_of}
use pertisk_kube_app.Pods.Merge.{reconcile, adopt}
use pertisk_kube_app.Pods.Keys.{IsClean}
use pertisk_kube_app.Pods.Invariant.{IsValid, keys-append}
use pertisk_kube_app.Pods.Sync.{
  Counts, api_row, sync_row, sync_rows, new_rows, sync, keys, miss_count,
}

pub is_some-api_row : (k : String) (api : List Pod) → is_some (api_row k api) ≡ member k (keys api)
unfolding api_row
is_some-api_row k [] = refl
is_some-api_row k (p ∷ api) = ground (arith, is_some-api_row k api)

key-reconcile : (r q : Pod) → key_of (reconcile r q) ≡ key_of q
unfolding reconcile
key-reconcile r q = refl

key-adopt : (p : Pod) → key_of (adopt p) ≡ key_of p
unfolding adopt
key-adopt p = refl

IsClean-adopt : (p : Pod) → IsClean p → IsClean (adopt p)
unfolding adopt
IsClean-adopt p c = c

IsClean-reconcile : (r q : Pod) → IsClean q → IsClean (reconcile r q)
unfolding reconcile
IsClean-reconcile r q c = c

module _ (counts : Counts) (marked : List String) (api : List Pod) where
  -- A listed row stays under its key, or goes: it stays if the list has it, or if it is marked.
  keys-sync_row :
      (item : Pod)
      → keys (sync_row counts marked api item) ≡ (
          if member (key_of item) (keys api) || member (key_of item) marked
          then key_of item ∷ []
          else [])
  unfolding sync_row
  keys-sync_row item = elim (Option-cases (api_row (key_of item) api)) [
    | inl e ↦ rw (e, sync_row) (ground (arith, is_some-api_row (key_of item) api))
    | inr (r, e) ↦
        rw (e, sync_row) (ground (arith, is_some-api_row (key_of item) api, key-reconcile r item))
  ]

  IsClean-sync_row : (item : Pod) → IsClean item → All IsClean (sync_row counts marked api item)
  unfolding sync_row
  IsClean-sync_row item c = elim (Option-cases (api_row (key_of item) api)) [
    | inl e ↦
        rw (e, sync_row) (go (leb 1 (miss_count counts item) && not (member (key_of item) marked)))
    | inr (r, e) ↦ rw (e, sync_row) (IsClean-reconcile r item c, tt)
  ]
    where
      go : (b : Bool) → All IsClean (if b then [] else item ∷ [])
      go true = tt
      go false = (c, tt)

  pub member-sync_rows :
      (rows : List Pod) (k : String)
      → member k (keys (sync_rows counts marked api rows))
        ≡ (member k (keys rows) && (member k (keys api) || member k marked))
  unfolding sync_rows
  member-sync_rows [] k = refl
  member-sync_rows (item ∷ rows) k =
      ap (member k)
        (keys-append (sync_row counts marked api item) (sync_rows counts marked api rows))
      ∙ (member-append k (keys (sync_row counts marked api item))
            (keys (sync_rows counts marked api rows))
          ∙ rw (keys-sync_row item, member-sync_rows rows k)
              (ground (arith, eq_iff (key_of item) k)))

  IsClean-sync_rows :
      (rows : List Pod) → All IsClean rows → All IsClean (sync_rows counts marked api rows)
  unfolding sync_rows
  IsClean-sync_rows [] h = tt
  IsClean-sync_rows (q ∷ rows) (c, h) =
      All-append IsClean (sync_row counts marked api q) (sync_rows counts marked api rows)
        (IsClean-sync_row q c) (IsClean-sync_rows rows h)

  Distinct-sync_rows :
      (rows : List Pod) → Distinct (keys rows) → Distinct (keys (sync_rows counts marked api rows))
  unfolding sync_rows
  Distinct-sync_rows [] d = tt
  Distinct-sync_rows (q ∷ rows) (fresh, d) =
      let rest = keys (sync_rows counts marked api rows) in
      rw
        (
          keys-append (sync_row counts marked api q) (sync_rows counts marked api rows),
          keys-sync_row q,
        )
        (go (member (key_of q) (keys api) || member (key_of q) marked)
          (ground (arith, member-sync_rows rows (key_of q))) (Distinct-sync_rows rows d))
    where
      go :
          (b : Bool)
          → member (key_of q) (keys (sync_rows counts marked api rows)) ≡ false
          → Distinct (keys (sync_rows counts marked api rows))
          → Distinct ((if b then key_of q ∷ [] else []) ++ keys (sync_rows counts marked api rows))
      go true m d' = (m, d')
      go false m d' = d'

module _ (existing marked : List String) where
  pub member-new_rows :
      (api : List Pod) (k : String)
      → member k (keys (new_rows existing marked api))
        ≡ (member k (keys api) && (not (member k existing) && not (member k marked)))
  unfolding new_rows
  member-new_rows [] k = refl
  member-new_rows (p ∷ api) k =
      ground (arith, member-new_rows api k, key-adopt p, eq_iff (key_of p) k)

  IsClean-new_rows : (api : List Pod) → All IsClean api → All IsClean (new_rows existing marked api)
  unfolding new_rows
  IsClean-new_rows [] h = tt
  IsClean-new_rows (p ∷ api) (c, h) =
      All-cons_if IsClean (not (member (key_of p) existing) && not (member (key_of p) marked))
        (adopt p) (new_rows existing marked api) (IsClean-adopt p c) (IsClean-new_rows api h)

  Distinct-new_rows :
      (api : List Pod) → Distinct (keys api) → Distinct (keys (new_rows existing marked api))
  unfolding new_rows
  Distinct-new_rows [] d = tt
  Distinct-new_rows (p ∷ api) (fresh, d) =
      go (not (member (key_of p) existing) && not (member (key_of p) marked))
        (ground (arith, member-new_rows api (key_of p))) (Distinct-new_rows api d)
    where
      go :
          (b : Bool)
          → member (key_of p) (keys (new_rows existing marked api)) ≡ false
          → Distinct (keys (new_rows existing marked api))
          → Distinct (
              keys (
                if b then adopt p ∷ new_rows existing marked api else new_rows existing marked api))
      go true m d' = (rw (key-adopt p) m, d')
      go false m d' = d'

-- After a reconciliation a pod of the REST list is listed if it was listed before or is not
-- recently deleted; another pod is listed only if it was listed and is recently deleted.
pub member-sync :
    (counts : Counts) (marked : List String) (api rows : List Pod) (k : String)
    → member k (keys (sync counts marked api rows)) ≡ (
        if member k (keys api)
        then member k (keys rows) || not (member k marked)
        else member k (keys rows) && member k marked)
unfolding sync
member-sync counts marked api rows k =
    let merged = sync_rows counts marked api rows in
    ap (member k) (keys-append merged (new_rows (keys merged) marked api))
    ∙ (member-append k (keys merged) (keys (new_rows (keys merged) marked api))
        ∙ rw (member-new_rows (keys merged) marked api k, member-sync_rows counts marked api rows k)
            (ground arith))

pub sync-IsValid :
    (counts : Counts) (marked : List String) (api rows : List Pod)
    → All IsClean api
    → Distinct (keys api)
    → IsValid rows marked
    → IsValid (sync counts marked api rows) marked
unfolding sync
sync-IsValid counts marked api rows clean distinct v =
    let merged = sync_rows counts marked api rows in
    let fresh = new_rows (keys merged) marked api in
    record {
      clean =
          All-append IsClean merged fresh (IsClean-sync_rows counts marked api rows v.clean)
            (IsClean-new_rows (keys merged) marked api clean);
      distinct = rw (keys-append merged fresh) (
          Distinct-append (keys merged) (keys fresh)
            (Distinct-sync_rows counts marked api rows v.distinct)
            (Distinct-new_rows (keys merged) marked api distinct)
            (All-of-member (λ k. member k (keys merged)) (keys fresh)
              (λ k m. ground (arith, member-new_rows (keys merged) marked api k))));
      unmarked =
          All-of-member (λ k. member k marked) (keys (merged ++ fresh))
            (λ k m. ground (
              arith,
              member-sync counts marked api rows k,
              member-of-All (λ j. member j marked) (keys rows) k v.unmarked,
              ap (member k) (keys-append merged fresh),
              member-append k (keys merged) (keys fresh),
              member-new_rows (keys merged) marked api k,
              member-sync_rows counts marked api rows k,
            ));
    }
