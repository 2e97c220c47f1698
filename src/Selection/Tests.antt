-- ===== src/Selection/Tests.antt =====
-- The panel at concrete lists.
use pertisk_kube_app.Base.{String, ◌≡◌, refl, true, none, some, [], ◌∷◌}
use pertisk_kube_app.Base.Text.{◌<>◌}
use pertisk_kube_app.Resources.Kind.{RawItem, Kind, namespaced_key}
use pertisk_kube_app.Resources.Reducer.{on_update}
use pertisk_kube_app.Selection.{Panel, namespaced_resource_key}
use pertisk_kube_app.Selection.Follows.{none_if_listed}

record Row : Type 0 where
  pub key : String
  pub phase : String

abbrev written : Row → String
written r = r.key <> " " <> r.phase

abbrev bound : Row
bound = record { key = namespaced_resource_key "shop" "disk"; phase = "Bound" }

abbrev released : Row
released = record { key = "shop/disk"; phase = "Released" }

abbrev panel : Panel Row
panel = record {
  items = some (released ∷ []);
  selected_key = some "shop/disk";
  selected_item = some bound;
  panel_open = true;
}

abbrev claims : Kind String Row
claims = record {
  resource_type = "persistentvolumeclaims";
  get_key = λ r. r.key;
  transform = λ raw. record { key = namespaced_key raw.namespace raw.name; phase = raw.body };
  refresh = λ item prev. item;
  changed = λ prev next. true;
  finish = λ rows. rows;
}

abbrev disk : RawItem String
disk = record {
  namespace = some "shop";
  name = some "disk";
  deletion_timestamp = none;
  own_namespace = none;
  own_name = none;
  body = "Bound";
}

last_row_stays :
    none_if_listed bound (on_update claims (some "DELETED") disk (bound ∷ [])) ≡ some bound
unfolding on_update
last_row_stays = refl
