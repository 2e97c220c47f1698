-- ===== src/Restart/Document.antt =====
-- The change that `restartStatefulSetViaYaml` and `restartDaemonSetViaYaml` make in a parsed document:
-- the fields that the server manages go, and the template gets an annotation. A property that is set
-- on an array is lost when the document is written, and on a text, number or truth value it throws.
pub mod Kept
use pertisk_kube_app.Base.{String, Option, none, some, List, [], ◌∷◌}
use pertisk_kube_app.Base.Json.{Json, undefined, null, bool, num, str, arr, obj, Fields, end}
use pertisk_kube_app.Base.Objects.{own, set_field, delete_field, value_of, or_empty}

abbrev pub restarted_at_key : String
restarted_at_key = "kubectl.kubernetes.io/restartedAt"

abbrev pub map_some : (Json → Json) → Option Json → Option Json
map_some f none = none
map_some f (some v) = some (f v)

-- annotations[key] = at; `none` where that throws
abbrev pub set_annotation : String → Json → Option Json
set_annotation at (obj fs) = some (obj (set_field restarted_at_key (str at) fs))
set_annotation at (arr xs) = some (arr xs)
set_annotation at _ = none

-- const child = parent[key] ?? {}; parent[key] = child; and the change of the child
abbrev pub with_child : String → (Json → Option Json) → Json → Option Json
with_child key change (obj fs) =
    map_some (λ child. obj (set_field key child fs)) (change (or_empty (value_of (own key fs))))
with_child key change (arr xs) = map_some (λ child. arr xs) (change (obj end))
with_child key change _ = none

abbrev pub annotate_template : String → Json → Option Json
annotate_template at =
    with_child "spec"
      (with_child "template" (with_child "metadata" (with_child "annotations" (set_annotation at))))

abbrev pub managed_by_server : List String
managed_by_server =
    "managedFields" ∷ "resourceVersion" ∷ "uid" ∷ "generation" ∷ "creationTimestamp" ∷ "selfLink"
    ∷ []

abbrev pub delete_fields : List String → Fields → Fields
delete_fields [] fs = fs
delete_fields (key ∷ more) fs = delete_fields more (delete_field key fs)

-- The deletions from metadata; on a text, number or truth value they do nothing.
abbrev pub strip_metadata : Json → Json
strip_metadata (obj fs) = obj (delete_fields managed_by_server fs)
strip_metadata v = v

-- The document that is sent back.
unfoldable pub restart_document : String → Json → Option Json
restart_document at (obj fs) =
    let stripped =
      set_field "metadata" (strip_metadata (or_empty (value_of (own "metadata" fs)))) fs in
    annotate_template at (obj (delete_field "status" stripped))
restart_document at (arr xs) = some (arr xs)
restart_document at _ = none
