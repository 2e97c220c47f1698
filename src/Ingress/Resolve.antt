-- ===== src/Ingress/Resolve.antt =====
-- Where the address of an ingress class comes from.
use pertisk_kube_app.Base.{
  String, ◌≡◌, ◌≢◌, refl, sym, ap, subst, ◌∙◌, Bool, true, false, inl, inr, Option, none, some,
  List, [], ◌∷◌, ◌++◌, arith, eq_iff, eq_refl, ◌==◌, Bool-cases,
}
use text.Mathlib.Text.{starts_with}
use pertisk_kube_app.Base.Lists.{All, All-filter}
use pertisk_kube_app.Base.Text.{◌<>◌}
use pertisk_kube_app.Ingress.{
  IngressClassItem, ServiceItem, Balancers, balancers_from, addresses_at, release_namespace,
  candidate_names, format_addresses, first_candidate, resolve_class,
}
use pertisk_kube_app.Ingress.Services.{
  NoneAt, Latest, List-cases, Latest-of_addresses, NoneAt-of_addresses,
}
use pertisk_kube_app.Ingress.Entries.{
  IsMap, IsMap-balancers, HasAddresses-balancers, near, IsMap-near, addresses_at-near, near-passes,
}

module _ (sort : List String → List String) (c : IngressClassItem)
    (services : List ServiceItem) where
  abbrev pub service_key : String → String
  service_key name = release_namespace c <> "/" <> name

  -- Keys of the release's namespace
  abbrev pub is_near : String → Bool
  is_near key = starts_with key (release_namespace c <> "/")

  -- None of the names is that of a load balancer with addresses.
  abbrev pub NoneOf : List String → Type 0
  NoneOf names = All (λ n. NoneAt (service_key n) services) names

  -- The origin of an address among the services.
  pub data Origin (address : String) : Type 0 where
    no_release : release_namespace c ≡ "" → address ≡ "-" → Origin address
    candidate :
        (before : List String) (name : String) (after addresses : List String)
        → release_namespace c ≢ ""
        → candidate_names c ≡ before ++ name ∷ after
        → NoneOf before
        → Latest (service_key name) addresses services
        → address ≡ format_addresses sort addresses
        → Origin address
    only_balancer :
        (key : String) (addresses : List String)
        → release_namespace c ≢ ""
        → NoneOf (candidate_names c)
        → is_near key ≡ true
        → Latest key addresses services
        → ((k : String) → is_near k ≡ true → k ≢ key → NoneAt k services)
        → address ≡ format_addresses sort addresses
        → Origin address
    no_balancer :
        release_namespace c ≢ ""
        → NoneOf (candidate_names c)
        → ((k : String) → is_near k ≡ true → NoneAt k services)
        → address ≡ "-"
        → Origin address
    several_balancers :
        (key k : String) (addresses others : List String)
        → release_namespace c ≢ ""
        → NoneOf (candidate_names c)
        → is_near key ≡ true
        → is_near k ≡ true
        → k ≢ key
        → Latest key addresses services
        → Latest k others services
        → address ≡ "-"
        → Origin address

  abbrev balancers : Balancers
  balancers = balancers_from services []

  -- What the loop over the candidates finds.
  abbrev Found : List String → Option String → Type 0
  Found names none = NoneOf names
  Found names (some address) =
      (before : List String) × (name : String) × (after addresses : List String) × (names
        ≡ before ++ name ∷ after)
      × NoneOf before
      × Latest (service_key name) addresses services
      × (address ≡ format_addresses sort addresses)

  later :
      (name : String) (names : List String) (o : Option String)
      → NoneAt (service_key name) services
      → Found names o
      → Found (name ∷ names) o
  later name names none e f = (e, f)
  later name names (some address) e (before, hit, after, addresses, split, all, found, says) =
      (name ∷ before, hit, after, addresses, ap (λ l. name ∷ l) split, (e, all), found, says)

  found :
      (names : List String)
      → Found names (first_candidate sort (release_namespace c) names balancers)
  unfolding first_candidate
  found [] = tt
  found (name ∷ names) = elim (List-cases (addresses_at (service_key name) balancers)) [
    | inl e ↦
        rw (e, first_candidate)
          (later name names _ (NoneAt-of_addresses (service_key name) services e) (found names))
    | inr (a, rest, e) ↦
        let there : addresses_at (service_key name) balancers ≢ [] = λ none_there. cc in
        rw (e, first_candidate)
          (
            [],
            name,
            names,
            addresses_at (service_key name) balancers,
            refl,
            tt,
            Latest-of_addresses (service_key name) services there,
            ap (format_addresses sort) (sym e),
          )
  ]

  -- An entry of the map is of the last balancer at its key.
  Latest-entry :
      (key : String) (addresses : List String)
      → addresses ≢ []
      → addresses_at key balancers ≡ addresses
      → Latest key addresses services
  Latest-entry key addresses some_addresses e =
      subst (λ l. Latest key l services) e
        (Latest-of_addresses key services (λ empty. some_addresses (sym e ∙ empty)))

  -- The addresses at a key of the release's namespace
  at_near :
      (entries : Balancers) (key : String)
      → near is_near balancers ≡ entries
      → is_near key ≡ true
      → addresses_at key balancers ≡ addresses_at key entries
  at_near entries key split here =
      sym (addresses_at-near is_near key balancers here) ∙ ap (addresses_at key) split

  from_near :
      (entries : Balancers)
      → release_namespace c ≢ ""
      → NoneOf (candidate_names c)
      → near is_near balancers ≡ entries
      → IsMap entries
      → All (λ e. is_near e.0 ≡ true) entries
      → All (λ e. e.1 ≢ []) entries
      → Origin (elim entries [ [] ↦ "-" | e ∷ [] ↦ format_addresses sort e.1 | e ∷ f ∷ more ↦ "-" ])
  unfolding addresses_at
  from_near [] release none_found split keys passes some_addresses =
      no_balancer release none_found
        (λ k here. NoneAt-of_addresses k services (at_near [] k split here)) refl
  from_near ((key, addresses) ∷ []) release none_found split keys (here, _) (filled, _) =
      only_balancer key addresses release none_found here
        (Latest-entry key addresses filled (at_near _ key split here ∙ rw (eq_refl key) refl))
        (λ k near_k other.
          let differs : key == k ≡ false = ground (arith, eq_iff key k) in
          NoneAt-of_addresses k services (at_near _ k split near_k ∙ rw differs refl))
        refl
  from_near ((key, addresses) ∷ (k, others) ∷ more) release none_found split ((other, _), _)
        (here, (there, _)) (filled, (more_filled, _)) =
      let differs : key == k ≡ false = ground (arith, eq_iff key k) in
      several_balancers key k addresses others release none_found here there other
        (Latest-entry key addresses filled (at_near _ key split here ∙ rw (eq_refl key) refl))
        (Latest-entry k others more_filled
          (at_near _ k split there ∙ rw differs (rw (eq_refl k) refl)))
        refl

  from_found :
      (o : Option String)
      → release_namespace c ≢ ""
      → Found (candidate_names c) o
      → Origin (elim o [
        | some address ↦ address
        | none ↦ elim (near is_near balancers) [
          | [] ↦ "-"
          | e ∷ [] ↦ format_addresses sort e.1
          | e ∷ f ∷ more ↦ "-"
        ]
      ])
  from_found none release f =
      from_near (near is_near balancers) release f refl
        (IsMap-near is_near balancers (IsMap-balancers services [] tt))
        (near-passes is_near balancers)
        (All-filter (λ e. e.1 ≢ []) (λ e. is_near e.0) balancers
          (HasAddresses-balancers services [] tt))
  from_found (some address) release (before, name, after, addresses, split, all, hit, says) =
      candidate before name after addresses release split all hit says

-- Without a release namespace, the address that an ingress class gets from the services is a dash. With
-- one, it is made of the addresses of the first service that the class may name, in the order of the
-- candidates, at whose key there is a load balancer with addresses, the last one of that key; where
-- there is none, of those of the last such load balancer of the only such key in the release's
-- namespace; where no key of that namespace or more than one has such a load balancer, it is a dash.
pub resolve_class-Origin :
    (sort : List String → List String) (c : IngressClassItem) (services : List ServiceItem)
    → Origin sort c services (resolve_class sort c (balancers_from services []))
unfolding resolve_class
resolve_class-Origin sort c services = elim (Bool-cases (release_namespace c == "")) [
  | inl e ↦ rw (e, resolve_class) (no_release ((eq_iff (release_namespace c) "").0 e) refl)
  | inr e ↦
      let release : release_namespace c ≢ "" =
        λ blank. ground (arith, eq_iff (release_namespace c) "") in
      let m = balancers_from services [] in
      rw (e, resolve_class)
        (from_found sort c services
          (first_candidate sort (release_namespace c) (candidate_names c) m) release
          (found sort c services (candidate_names c)))
]
