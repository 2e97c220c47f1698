-- ===== src/Restart/Document/Kept.antt =====
-- What a restart changes in a document, and what it keeps.
use pertisk_kube_app.Base.{
  String, ◌≡◌, refl, ap, ◌∙◌, Bool, true, false, Option, some, ◌==◌, if◌then◌else◌, arith, eq_refl,
  List, [], ◌∷◌, Bool-cases, inl, inr,
}
use pertisk_kube_app.Base.Json.{Json, undefined, null, bool, num, str, arr, obj, Fields, end}
use pertisk_kube_app.Base.Objects.{
  own, set_field, delete_field, value_of, or_empty, own-set_field, own-delete_field,
}
use pertisk_kube_app.Base.Text.{member}
use pertisk_kube_app.Restart.Document.{
  restarted_at_key, set_annotation, with_child, strip_metadata, restart_document, managed_by_server,
  delete_fields,
}

-- v[key], for any value v
abbrev pub get : String → Json → Json
get key (obj fs) = value_of (own key fs)
get key _ = undefined

-- An object, or nothing in its place.
abbrev pub IsObject : Json → Type 0
IsObject undefined = Unit
IsObject null = Unit
IsObject (obj fs) = Unit
IsObject _ = ⊥

get-set_field :
    (q key : String) (v : Json) (fs : Fields)
    → get q (obj (set_field key v fs)) ≡ (if key == q then v else get q (obj fs))
get-set_field q key v fs = elim (Bool-cases (key == q)) [
  | inl e ↦ ap value_of (own-set_field q key v fs) ∙ rw e refl
  | inr e ↦ ap value_of (own-set_field q key v fs) ∙ rw e refl
]

get-delete_field :
    (q key : String) (fs : Fields)
    → get q (obj (delete_field key fs)) ≡ (if key == q then undefined else get q (obj fs))
get-delete_field q key fs = elim (Bool-cases (key == q)) [
  | inl e ↦ ap value_of (own-delete_field q key fs) ∙ rw e refl
  | inr e ↦ ap value_of (own-delete_field q key fs) ∙ rw e refl
]

-- The result of a change of one child: the child is changed, and nothing else.
record Changed (key : String) (change : Json → Option Json) (before child : Json) : Type 0 where
  fields : Fields
  result : with_child key change (or_empty before) ≡ some (obj fields)
  at_key : get key (obj fields) ≡ child
  others : (q : String) → (key == q) ≡ false → get q (obj fields) ≡ get q before

change_fields :
    (key : String) (change : Json → Option Json) (fs : Fields) (child : Json)
    → change (or_empty (get key (obj fs))) ≡ some child
    → Changed key change (obj fs) child
change_fields key change fs child e = record {
  fields = set_field key child fs;
  result = rw e refl;
  at_key = get-set_field key key child fs ∙ rw (eq_refl key) refl;
  others = λ q other. get-set_field q key child fs ∙ rw other refl;
}

change_child :
    (key : String) (change : Json → Option Json) (before child : Json)
    → IsObject before
    → change (or_empty (get key before)) ≡ some child
    → Changed key change before child
change_child key change undefined child o e =
    let c = change_fields key change end child e in
    record { fields = c.fields; result = c.result; at_key = c.at_key; others = c.others }
change_child key change null child o e =
    let c = change_fields key change end child e in
    record { fields = c.fields; result = c.result; at_key = c.at_key; others = c.others }
change_child key change (obj fs) child o e = change_fields key change fs child e
change_child key change (bool b) child o e = absurd o
change_child key change (num n) child o e = absurd o
change_child key change (str s) child o e = absurd o
change_child key change (arr xs) child o e = absurd o

annotate :
    (at : String) (annotations : Json)
    → IsObject annotations
    → (fs : Fields) × (set_annotation at (or_empty annotations) ≡ some (obj fs))
      × ((q : String)
          → get q (obj fs) ≡ (if restarted_at_key == q then str at else get q annotations))
annotate at undefined o = (
  set_field restarted_at_key (str at) end,
  refl,
  λ q. get-set_field q restarted_at_key (str at) end,
)
annotate at null o = (
  set_field restarted_at_key (str at) end,
  refl,
  λ q. get-set_field q restarted_at_key (str at) end,
)
annotate at (obj gs) o = (
  set_field restarted_at_key (str at) gs,
  refl,
  λ q. get-set_field q restarted_at_key (str at) gs,
)
annotate at (bool b) o = absurd o
annotate at (num n) o = absurd o
annotate at (str s) o = absurd o
annotate at (arr xs) o = absurd o

abbrev pub template_metadata : Json → Json
template_metadata document = get "metadata" (get "template" (get "spec" document))

get-delete_fields :
    (q : String) (ks : List String) (fs : Fields)
    → get q (obj (delete_fields ks fs)) ≡ (if member q ks then undefined else get q (obj fs))
get-delete_fields q [] fs = refl
get-delete_fields q (k ∷ ks) fs = elim (Bool-cases (member q ks)) [
  | inl e ↦ get-delete_fields q ks (delete_field k fs) ∙ rw e (ground (arith, Bool-cases (k == q)))
  | inr e ↦
      get-delete_fields q ks (delete_field k fs)
      ∙ rw e (get-delete_field q k fs ∙ ground (arith, Bool-cases (k == q)))
]

undefined_either : (b : Bool) → undefined ≡ (if b then undefined else undefined)
undefined_either true = refl
undefined_either false = refl

get-strip_metadata :
    (q : String) (metadata : Json)
    → get q (strip_metadata (or_empty metadata))
      ≡ (if member q managed_by_server then undefined else get q metadata)
get-strip_metadata q undefined = undefined_either (member q managed_by_server)
get-strip_metadata q null = undefined_either (member q managed_by_server)
get-strip_metadata q (bool b) = undefined_either (member q managed_by_server)
get-strip_metadata q (num n) = undefined_either (member q managed_by_server)
get-strip_metadata q (str s) = undefined_either (member q managed_by_server)
get-strip_metadata q (arr xs) = undefined_either (member q managed_by_server)
get-strip_metadata q (obj fs) = get-delete_fields q managed_by_server fs

-- What a document has where a restart looks: objects, or nothing.
pub record IsTemplated (document : Json) : Type 0 where
  pub spec : IsObject (get "spec" document)
  pub template : IsObject (get "template" (get "spec" document))
  pub metadata : IsObject (template_metadata document)
  pub annotations : IsObject (get "annotations" (template_metadata document))

-- What a restart makes of a document.
pub record Restarted (at : String) (before after : Json) : Type 0 where
  pub annotations :
      (q : String)
      → get q (get "annotations" (template_metadata after)) ≡ (
          if restarted_at_key == q
          then str at
          else get q (get "annotations" (template_metadata before)))
  pub template_metadata_kept :
      (q : String)
      → ("annotations" == q) ≡ false
      → get q (template_metadata after) ≡ get q (template_metadata before)
  pub template_kept :
      (q : String)
      → ("metadata" == q) ≡ false
      → get q (get "template" (get "spec" after)) ≡ get q (get "template" (get "spec" before))
  pub spec_kept :
      (q : String)
      → ("template" == q) ≡ false
      → get q (get "spec" after) ≡ get q (get "spec" before)
  pub metadata :
      (q : String)
      → get q (get "metadata" after)
        ≡ (if member q managed_by_server then undefined else get q (get "metadata" before))
  pub status : get "status" after ≡ undefined
  pub others :
      (q : String)
      → member q ("spec" ∷ "metadata" ∷ "status" ∷ []) ≡ false
      → get q after ≡ get q before

-- Where a document has objects, or nothing, as spec, template, metadata of the template and annotations,
-- a restart sends it back with the time as an annotation of the template, without status and
-- without the fields of metadata that the server manages, and with all else of spec, of the
-- template, of its metadata and of the document as it was.
pub restart_document-Restarted :
    (at : String) (fs : Fields)
    → IsTemplated (obj fs)
    → (after : Json) × (restart_document at (obj fs) ≡ some after) × Restarted at (obj fs) after
unfolding restart_document
restart_document-Restarted at fs h = (
  obj c0.fields,
  c0.result,
  record {
    annotations =
        λ q. ap (λ m. get q (get "annotations" m)) meta_after ∙ ap (get q) c3.at_key ∙ ka q;
    template_metadata_kept = λ q other. ap (get q) meta_after ∙ c3.others q other;
    template_kept = λ q other.
        ap (λ s. get q (get "template" s)) c0.at_key ∙ ap (get q) c1.at_key ∙ c2.others q other;
    spec_kept = λ q other. ap (get q) c0.at_key ∙ c1.others q other;
    metadata = λ q.
        ap (get q) (
          c0.others "metadata" refl
          ∙ get-delete_field "metadata" "status" stripped
          ∙ get-set_field "metadata" "metadata" (strip_metadata (or_empty metadata)) fs)
        ∙ get-strip_metadata q metadata;
    status = c0.others "status" refl ∙ get-delete_field "status" "status" stripped;
    others = λ q other.
        c0.others q (ground arith)
        ∙ get-delete_field q "status" stripped
        ∙ ground (arith, get-set_field q "metadata" (strip_metadata (or_empty metadata)) fs);
  },
)
  where
    metadata : Json
    metadata = get "metadata" (obj fs)

    stripped : Fields
    stripped = set_field "metadata" (strip_metadata (or_empty metadata)) fs

    doc : Fields
    doc = delete_field "status" stripped

    spec : Json
    spec = get "spec" (obj fs)

    spec_eq : get "spec" (obj doc) ≡ spec
    spec_eq =
        get-delete_field "spec" "status" stripped
        ∙ get-set_field "spec" "metadata" (strip_metadata (or_empty metadata)) fs

    annotated :
        (gs : Fields) × (set_annotation at
            (or_empty (get "annotations" (template_metadata (obj fs))))
          ≡ some (obj gs))
        × ((q : String)
            → get q (obj gs) ≡ (
                if restarted_at_key == q
                then str at
                else get q (get "annotations" (template_metadata (obj fs)))))
    annotated = annotate at (get "annotations" (template_metadata (obj fs))) h.annotations

    ka :
        (q : String)
        → get q (obj annotated.0) ≡ (
            if restarted_at_key == q
            then str at
            else get q (get "annotations" (template_metadata (obj fs))))
    ka = annotated.2

    c3 : Changed "annotations" (set_annotation at) (template_metadata (obj fs)) (obj annotated.0)
    c3 =
        change_child "annotations" (set_annotation at) (template_metadata (obj fs))
          (obj annotated.0) h.metadata annotated.1

    c2 :
        Changed "metadata"
          (with_child "annotations" (set_annotation at))
          (get "template" spec)
          (obj c3.fields)
    c2 =
        change_child "metadata" (with_child "annotations" (set_annotation at)) (get "template" spec)
          (obj c3.fields) h.template c3.result

    c1 :
        Changed "template"
          (with_child "metadata" (with_child "annotations" (set_annotation at)))
          spec
          (obj c2.fields)
    c1 =
        change_child "template"
          (with_child "metadata" (with_child "annotations" (set_annotation at))) spec
          (obj c2.fields) h.spec c2.result

    c0 :
        Changed "spec"
          (with_child "template"
            (with_child "metadata" (with_child "annotations" (set_annotation at))))
          (obj doc)
          (obj c1.fields)
    c0 =
        change_fields "spec"
          (with_child "template"
            (with_child "metadata" (with_child "annotations" (set_annotation at))))
          doc (obj c1.fields)
          (ap
              (λ s.
                with_child "template"
                  (with_child "metadata" (with_child "annotations" (set_annotation at)))
                  (or_empty s))
              spec_eq
            ∙ c1.result)

    meta_after : template_metadata (obj c0.fields) ≡ obj c3.fields
    meta_after =
        ap (λ s. get "metadata" (get "template" s)) c0.at_key
        ∙ ap (get "metadata") c1.at_key
        ∙ c2.at_key
