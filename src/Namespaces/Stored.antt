-- ===== src/Namespaces/Stored.antt =====
-- What a reload of the application brings back, and which namespaces are known.
use pertisk_kube_app.Base.{
  String, ◌≡◌, ◌≢◌, refl, sym, subst, ap₂, ◌∙◌, true, inl, inr, Option, none, some, List, [], ◌∷◌,
  ◌==◌, arith, eq_iff, Bool-cases,
}
use pertisk_kube_app.Base.Text.{member}
use pertisk_kube_app.Base.Sets.{
  Within, unique, member-unique, Distinct-unique, Within-of_all, Within-of_length,
}
use pertisk_kube_app.Namespaces.{
  Items, NamespaceContext, stored_list, stored_text, written_list, written_text, mount_with,
  mount_read, set_selected_namespaces, mount, set_resource_name_filter, same_set, set_namespaces,
  toggle_namespace, Event, selected, fetched, toggled, cleared, filter_typed, loading, step, run,
}

stored-written_text : (s : String) → stored_text (written_text s) ≡ s
stored-written_text s = elim (Bool-cases (s == "")) [
  | inl e ↦ rw e (sym ((eq_iff s "").0 e))
  | inr e ↦ rw e refl
]

module _ (stringify : List String → String) (parse : String → Option (List String))
    (nonblank : (ns : List String) → stringify ns ≢ "")
    (again : (ns : List String) → parse (stringify ns) ≡ some ns) where
  stored-written_list :
      (ns : List String) → stored_list stringify parse (written_list stringify ns) ≡ some ns
  unfolding stored_list
  stored-written_list [] = refl
  stored-written_list (n ∷ ns) = elim (Bool-cases (stringify (n ∷ ns) == "")) [
    | inl e ↦ absurd (nonblank (n ∷ ns) ((eq_iff (stringify (n ∷ ns)) "").0 e))
    | inr e ↦ rw e (again (n ∷ ns))
  ]

  -- The items read back as what the context holds.
  record IsStored (p : NamespaceContext) : Type 0 where
    selected : stored_list stringify parse p.items.selected_namespaces ≡ some p.selected_namespaces
    available : stored_list stringify parse p.items.available_namespaces ≡ some p.namespaces
    filtered : stored_text p.items.resource_name_filter ≡ p.resource_name_filter

  select-IsStored :
      (ns : List String) (p : NamespaceContext)
      → IsStored p
      → IsStored (set_selected_namespaces stringify ns p)
  unfolding set_selected_namespaces
  select-IsStored ns p h = record {
    selected = stored-written_list ns;
    available = h.available;
    filtered = h.filtered;
  }

  mount_read-IsStored :
      (items : Items) (o k : Option (List String)) (p : NamespaceContext)
      → stored_list stringify parse items.available_namespaces ≡ k
      → mount_read stringify parse items o k ≡ some p
      → IsStored p
  unfolding set_selected_namespaces
  mount_read-IsStored items none k p e mounts = absurd (ground arith)
  mount_read-IsStored items (some chosen) none p e mounts = absurd (ground arith)
  mount_read-IsStored items (some chosen) (some known) p e mounts =
      let there : IsStored (mount_with stringify parse items chosen known) = record {
        selected = stored-written_list chosen;
        available = e;
        filtered = refl;
      } in
      let same : mount_with stringify parse items chosen known ≡ p = cc in subst IsStored same there

  mount-IsStored :
      (items : Items) (p : NamespaceContext) → mount stringify parse items ≡ some p → IsStored p
  unfolding mount
  mount-IsStored items p mounts =
      mount_read-IsStored items (stored_list stringify parse items.selected_namespaces)
        (stored_list stringify parse items.available_namespaces) p refl mounts

  set_namespaces-IsStored :
      (ns : List String) (p : NamespaceContext)
      → IsStored p
      → IsStored (set_namespaces stringify ns p)
  unfolding set_namespaces
  set_namespaces-IsStored ns p h = elim (Bool-cases (same_set p.namespaces ns)) [
    | inl e ↦ rw (e, set_namespaces) h
    | inr e ↦
        rw (e, set_namespaces)
          (record {
            selected = h.selected;
            available = stored-written_list ns;
            filtered = h.filtered;
          })
  ]

  step-IsStored : (e : Event) (p : NamespaceContext) → IsStored p → IsStored (step stringify e p)
  unfolding step toggle_namespace set_resource_name_filter
  step-IsStored (selected ns) p h = select-IsStored ns p h
  step-IsStored (fetched ns) p h = set_namespaces-IsStored ns p h
  step-IsStored (toggled n) p h = select-IsStored _ p h
  step-IsStored cleared p h = select-IsStored [] p h
  step-IsStored (filter_typed value) p h = record {
    selected = h.selected;
    available = h.available;
    filtered = stored-written_text value;
  }
  step-IsStored (loading b) p h = record {
    selected = h.selected;
    available = h.available;
    filtered = h.filtered;
  }

  run-IsStored :
      (es : List Event) (p : NamespaceContext) → IsStored p → IsStored (run stringify es p)
  unfolding run
  run-IsStored [] p h = h
  run-IsStored (e ∷ es) p h = run-IsStored es (step stringify e p) (step-IsStored e p h)

  -- A mount on the items of a context.
  mount-stored :
      (q : NamespaceContext)
      → IsStored q
      → mount stringify parse q.items
        ≡ some (mount_with stringify parse q.items q.selected_namespaces q.namespaces)
  unfolding mount
  mount-stored q h = ap₂ (mount_read stringify parse q.items) h.selected h.available

-- Where JSON.parse reads back what JSON.stringify writes, which is never blank, and the local storage at
-- first held nothing or lists of texts: whatever is selected, fetched and typed after that, a
-- reload of the application succeeds, and brings back the selected namespaces, the known
-- namespaces and the name filter.
pub mount-run :
    (stringify : List String → String) (parse : String → Option (List String))
    (nonblank : (ns : List String) → stringify ns ≢ "")
    (again : (ns : List String) → parse (stringify ns) ≡ some ns) (items : Items) (es : List Event)
    (p : NamespaceContext)
    → mount stringify parse items ≡ some p
    → let q = run stringify es p in
      (r : NamespaceContext) × (mount stringify parse q.items ≡ some r)
      × (r.selected_namespaces ≡ q.selected_namespaces)
      × (r.namespaces ≡ q.namespaces)
      × (r.resource_name_filter ≡ q.resource_name_filter)
unfolding set_selected_namespaces
mount-run stringify parse nonblank again items es p mounts =
    let q = run stringify es p in
    let stored =
      run-IsStored stringify parse nonblank again es p
        (mount-IsStored stringify parse nonblank again items p mounts) in
    (
      mount_with stringify parse q.items q.selected_namespaces q.namespaces,
      mount-stored stringify parse nonblank again q stored,
      refl,
      refl,
      stored.filtered,
    )

same_set-Within :
    (xs ys : List String) → same_set xs ys ≡ true → (k : String) → member k xs ≡ member k ys
unfolding same_set
same_set-Within xs ys h k =
    let within : Within (unique xs) (unique ys) =
      Within-of_all (unique xs) (unique ys) (ground arith) in
    let back =
      Within-of_length (unique xs) (unique ys) (Distinct-unique xs) within (ground arith) in
    sym (member-unique xs k) ∙ ground (arith, within k, back k) ∙ member-unique ys k

-- Once namespaces were fetched, exactly those are known, whether or not the fetch changed what is stored.
pub fetched_are_known :
    (stringify : List String → String) (ns : List String) (p : NamespaceContext) (k : String)
    → member k (step stringify (fetched ns) p).namespaces ≡ member k ns
unfolding step set_namespaces
fetched_are_known stringify ns p k = elim (Bool-cases (same_set p.namespaces ns)) [
  | inl e ↦ rw (e, set_namespaces) (same_set-Within p.namespaces ns e k)
  | inr e ↦ rw (e, set_namespaces) refl
]
