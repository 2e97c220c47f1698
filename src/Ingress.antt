-- ===== src/Ingress.antt =====
-- The addresses of ingresses: frontend/src/utils/ingress.ts. An object of texts by name is an
-- association list, in which a later entry of a name hides an earlier one. `sort` stands for the order
-- that `sortIngressAddresses` gives the distinct addresses, which depends on the locale.
pub mod Services
pub mod Entries
pub mod Resolve
pub mod Rows
pub mod Address
mod Tests
use pertisk_kube_app.Base.{
  String, Bool, true, false, not, ◌&&◌, ◌||◌, Option, none, some, List, [], ◌∷◌, ◌++◌, map,
  if◌then◌else◌, ◌==◌,
}
use text.Mathlib.Text.{starts_with}
use pertisk_kube_app.Base.Lists.{filter}
use pertisk_kube_app.Base.Text.{◌<>◌, trim, trimmed, join, member, nonempty, split}
use pertisk_kube_app.Pods.Raw.{or_text, has_text}

abbrev pub Texts : Type 0
Texts = List (String × String)

-- o[key]
unfoldable pub text_at : String → Texts → Option String
text_at key [] = none
text_at key ((k, v) ∷ entries) = elim (text_at key entries) [
  | some w ↦ some w
  | none ↦ if k == key then some v else none
]

pub record IngressClassItem : Type 0 where
  pub name : Option String
  pub controller : Option String
  pub address : Option String
  pub labels : Texts
  pub annotations : Texts

pub record ServiceItem : Type 0 where
  pub name : Option String
  pub namespace : Option String
  pub service_type : Option String
  pub external_ip : Option String

-- new Set(xs), in the order of insertion
unfoldable pub distinct_texts : List String → List String
distinct_texts [] = []
distinct_texts (x ∷ xs) = x ∷ filter (λ y. not (y == x)) (distinct_texts xs)

-- The parts of a comma separated text that are not blank.
unfoldable pub parts : String → List String
unfolding trim split
parts text = filter nonempty (map trim (split 0x2C text))

-- parseExternalAddresses
unfoldable pub parse_external : Option String → List String
unfolding parts
parse_external none = []
parse_external (some s) = if s == "" || s == "-" then [] else parts s

last_part : List String → String
last_part [] = ""
last_part (x ∷ []) = x
last_part (x ∷ y ∷ ys) = last_part (y ∷ ys)

abbrev pub release_namespace : IngressClassItem → String
release_namespace c = trimmed (text_at "meta.helm.sh/release-namespace" c.annotations)

-- The services of the release's namespace that controllerServiceCandidates names.
unfoldable pub candidate_names : IngressClassItem → List String
unfolding text_at trim split last_part
candidate_names c = filter nonempty (
    trimmed (text_at "meta.helm.sh/release-name" c.annotations)
    ∷ trimmed (text_at "app.kubernetes.io/instance" c.labels)
    ∷ trimmed (text_at "app.kubernetes.io/name" c.labels)
    ∷ trimmed c.name
    ∷ trim (last_part (split 0x2F (trimmed c.controller)))
    ∷ [])

-- A map from the key of a service to its addresses, a later entry of a key before an earlier one.
abbrev pub Balancers : Type 0
Balancers = List (String × List String)

pub set : String → List String → Balancers → Balancers
set key addresses [] = (key, addresses) ∷ []
set key addresses ((k, old) ∷ m) =
    if k == key then (k, addresses) ∷ m else (k, old) ∷ set key addresses m

unfoldable pub addresses_at : String → Balancers → List String
addresses_at key [] = []
addresses_at key ((k, addresses) ∷ m) = if k == key then addresses else addresses_at key m

abbrev pub is_balancer : Option String → Bool
is_balancer none = false
is_balancer (some t) = t == "LoadBalancer"

-- A turn of the loop of buildLoadBalancerServiceMap.
unfoldable pub add_service : ServiceItem → Balancers → Balancers
unfolding set trim parse_external
add_service s m =
    if not (is_balancer s.service_type)
    then m
    else if trimmed s.namespace == "" || trimmed s.name == ""
    then m
    else elim (parse_external s.external_ip) [
      | [] ↦ m
      | a ∷ rest ↦ set (trimmed s.namespace <> "/" <> trimmed s.name) (a ∷ rest) m
    ]

unfoldable pub balancers_from : List ServiceItem → Balancers → Balancers
unfolding add_service
balancers_from [] m = m
balancers_from (s ∷ services) m = balancers_from services (add_service s m)

module _ (sort : List String → List String) where
  -- formatIngressAddresses
  unfoldable pub format_addresses : List String → String
  unfolding distinct_texts join
  format_addresses addresses =
      elim (sort (distinct_texts (filter (λ a. nonempty a && not (a == "-")) addresses))) [
        | [] ↦ "-"
        | a ∷ rest ↦ join ", " (a ∷ rest)
      ]

  -- The loop over the candidates.
  unfoldable pub first_candidate : String → List String → Balancers → Option String
  unfolding addresses_at
  first_candidate namespace [] m = none
  first_candidate namespace (name ∷ names) m = elim (addresses_at (namespace <> "/" <> name) m) [
    | [] ↦ first_candidate namespace names m
    | a ∷ rest ↦ some (format_addresses (a ∷ rest))
  ]

  -- resolveClassAddressFromServices
  unfoldable pub resolve_class : IngressClassItem → Balancers → String
  unfolding candidate_names first_candidate
  resolve_class c m =
      if release_namespace c == ""
      then "-"
      else elim (first_candidate (release_namespace c) (candidate_names c) m) [
        | some address ↦ address
        | none ↦ elim (filter (λ e. starts_with e.0 (release_namespace c <> "/")) m) [
          | [] ↦ "-"
          | e ∷ [] ↦ format_addresses e.1
          | e ∷ f ∷ more ↦ "-"
        ]
      ]

  -- The loop of refreshIngressClassAddressMap over the classes.
  unfoldable pub class_addresses : Balancers → List IngressClassItem → Texts
  class_addresses m [] = []
  class_addresses m (c ∷ classes) =
      let rest = class_addresses m classes in
      let resolved = resolve_class c m in
      let own = trimmed c.address in
      if not (has_text c.name)
      then rest
      else if not (resolved == "-")
      then (or_text c.name "", resolved) ∷ rest
      else if nonempty own && not (own == "-")
      then (or_text c.name "", own) ∷ rest
      else rest

  -- The address map after both requests; `none` is an answer that is not ok.
  unfoldable pub refresh : Option (List IngressClassItem) → Option (List ServiceItem) → Texts
  refresh none services = []
  refresh (some classes) none = class_addresses [] classes
  refresh (some classes) (some services) = class_addresses (balancers_from services []) classes

-- The fields of a row that the address reads; `key` stands for the others.
pub record IngressRow : Type 0 where
  pub key : String
  pub ingress_class : String
  pub address : String

-- applyIngressControllerAddresses
unfoldable pub apply_addresses : Texts → List IngressRow → List IngressRow
unfolding text_at
apply_addresses m [] = []
apply_addresses m (row ∷ rows) =
    let rest = apply_addresses m rows in
    elim (text_at row.ingress_class m) [
      | none ↦ row ∷ rest
      | some address ↦
          (if nonempty address && not (address == "-")
            then record row { address = address }
            else row)
          ∷ rest
    ]
