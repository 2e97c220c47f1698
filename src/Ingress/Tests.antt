-- ===== src/Ingress/Tests.antt =====
-- Runs of the address resolution, and its theorems at a concrete cluster.
use pertisk_kube_app.Base.{String, ◌≡◌, refl, none, some, List, [], ◌∷◌}
use pertisk_kube_app.Ingress.{
  IngressClassItem, ServiceItem, balancers_from, resolve_class, format_addresses, refresh,
  class_addresses, IngressRow, apply_addresses,
}
use pertisk_kube_app.Ingress.Resolve.{Origin, resolve_class-Origin}
use pertisk_kube_app.Ingress.Address.{
  IngressObject, extract_address, own_address, resolve_for_class,
}

abbrev same_order : List String → List String
same_order xs = xs

abbrev nginx : IngressClassItem
nginx = record {
  name = some "nginx";
  controller = some "k8s.io/ingress-nginx";
  address = none;
  labels = [];
  annotations = ("meta.helm.sh/release-namespace", "ingress") ∷ [];
}

abbrev controller : ServiceItem
controller = record {
  name = some "ingress-nginx";
  namespace = some "ingress";
  service_type = some "LoadBalancer";
  external_ip = some "10.0.0.9, 10.0.0.10";
}

resolves :
    refresh same_order (some (nginx ∷ [])) (some (controller ∷ []))
    ≡ ("nginx", "10.0.0.9, 10.0.0.10") ∷ []
unfolding refresh class_addresses resolve_class balancers_from format_addresses
resolves = refl

resolve_class-Origin_example :
    Origin same_order nginx
      (controller ∷ [])
      (resolve_class same_order nginx (balancers_from (controller ∷ []) []))
resolve_class-Origin_example = resolve_class-Origin same_order nginx (controller ∷ [])

abbrev shop : IngressRow
shop = record { key = "apps/shop"; ingress_class = "nginx"; address = "-" }

abbrev storefront : IngressObject
storefront = record {
  address = none;
  load_balancer_camel = some (record { ip = none; hostname = some "lb.example.org" } ∷ []);
  load_balancer = none;
  annotations = [];
}

address_of_storefront :
    resolve_for_class same_order "traefik" storefront (("nginx", "10.0.0.9") ∷ [])
    ≡ "lb.example.org"
unfolding resolve_for_class own_address extract_address
address_of_storefront = refl

no_rows : apply_addresses (("nginx", "10.0.0.9") ∷ []) [] ≡ []
unfolding apply_addresses
no_rows = refl
