-- ===== src/Ingress/Services.antt =====
-- What the map of buildLoadBalancerServiceMap of frontend/src/utils/ingress.ts holds of the services.
use pertisk_kube_app.Base.{
  String, ◌≡◌, ◌≢◌, refl, sym, ap, subst, ◌∙◌, true, ◌||◌, ◌⊎◌, inl, inr, Option, none, some, List,
  [], ◌∷◌, ◌++◌, arith, eq_iff, eq_refl, ◌==◌, Bool-cases,
}
use pertisk_kube_app.Base.Lists.{All}
use pertisk_kube_app.Base.Text.{◌<>◌, trimmed}
use pertisk_kube_app.Ingress.{
  ServiceItem, Balancers, set, is_balancer, parse_external, add_service, addresses_at,
  balancers_from,
}

-- The service is a load balancer with these addresses, and this is its key.
pub record Offers (key : String) (addresses : List String) (s : ServiceItem) : Type 0 where
  pub kind : s.service_type ≡ some "LoadBalancer"
  pub placed : trimmed s.namespace ≢ ""
  pub named : trimmed s.name ≢ ""
  pub keyed : trimmed s.namespace <> "/" <> trimmed s.name ≡ key
  pub listed : parse_external s.external_ip ≡ addresses
  pub some_addresses : addresses ≢ []

-- No service is a load balancer with addresses at this key.
abbrev pub NoneAt : String → List ServiceItem → Type 0
NoneAt key services = All (λ s. (addresses : List String) → ¬ Offers key addresses s) services

-- The last load balancer with addresses at this key has these addresses.
pub record Latest (key : String) (addresses : List String) (services : List ServiceItem)
    : Type 0 where
  pub earlier : List ServiceItem
  pub service : ServiceItem
  pub later : List ServiceItem
  pub split : services ≡ earlier ++ service ∷ later
  pub offers : Offers key addresses service
  pub last : NoneAt key later

pub List-cases {ℓ} :
    {A : Type ℓ} (xs : List A) → (xs ≡ []) ⊎ ((a : A) × (rest : List A) × (xs ≡ a ∷ rest))
List-cases [] = inl refl
List-cases (x ∷ xs) = inr (x, xs, refl)

-- What a turn of the loop does: it sets the addresses of a load balancer, or nothing.
abbrev pub Turn : ServiceItem → Type 0
Turn s =
    ((key : String) × (addresses : List String) × Offers key addresses s
      × ((m : Balancers) → add_service s m ≡ set key addresses m))
    ⊎ (((key : String) (addresses : List String) → ¬ Offers key addresses s)
        × ((m : Balancers) → add_service s m ≡ m))

balancer : (t : Option String) → is_balancer t ≡ true → t ≡ some "LoadBalancer"
balancer none h = cc
balancer (some t) h = ap some ((eq_iff t "LoadBalancer").0 h)

balancer_of : (t : Option String) → t ≡ some "LoadBalancer" → is_balancer t ≡ true
balancer_of none h = absurd (ground arith)
balancer_of (some t) h = let word : t ≡ "LoadBalancer" = cc in (eq_iff t "LoadBalancer").1 word

pub turn : (s : ServiceItem) → Turn s
unfolding add_service
turn s = elim (Bool-cases (is_balancer s.service_type)) [
  | inl kind ↦ elim (Bool-cases (trimmed s.namespace == "" || trimmed s.name == "")) [
    | inl blank ↦ inr (
      λ key addresses o.
          ground
            (arith, o.placed, o.named, eq_iff (trimmed s.namespace) "", eq_iff (trimmed s.name) ""),
      λ m. rw (kind, blank) refl,
    )
    | inr placed ↦ elim (List-cases (parse_external s.external_ip)) [
      | inl e ↦
          inr
            (λ key addresses o. o.some_addresses (sym o.listed ∙ e), λ m. rw (kind, placed, e) refl)
      | inr (a, rest, e) ↦ inl (
        trimmed s.namespace <> "/" <> trimmed s.name,
        a ∷ rest,
        record {
          kind = balancer s.service_type kind;
          placed = λ blank. ground (arith, eq_iff (trimmed s.namespace) "");
          named = λ blank. ground (arith, eq_iff (trimmed s.name) "");
          keyed = refl;
          listed = e;
          some_addresses = λ none_there. cc;
        },
        λ m. rw (kind, placed, e) refl,
      )
    ]
  ]
  | inr other ↦ inr (
    λ key addresses o. let same = balancer_of s.service_type o.kind in ground arith,
    λ m. rw other refl,
  )
]

addresses_at-set :
    (key : String) (addresses : List String) (m : Balancers)
    → addresses_at key (set key addresses m) ≡ addresses
unfolding addresses_at set
addresses_at-set key addresses [] = rw (eq_refl key) refl
addresses_at-set key addresses ((k, old) ∷ m) = ground (arith, addresses_at-set key addresses m)

addresses_at-set_other :
    (key k : String) (addresses : List String) (m : Balancers)
    → k ≢ key
    → addresses_at key (set k addresses m) ≡ addresses_at key m
unfolding addresses_at set
addresses_at-set_other key k addresses [] other = ground (arith, eq_iff k key)
addresses_at-set_other key k addresses ((j, old) ∷ m) other =
    ground (
      arith,
      addresses_at-set_other key k addresses m other,
      eq_iff k key,
      eq_iff j k,
      eq_iff j key,
    )

-- The addresses at a key after the loop
after :
    (key : String) (services : List ServiceItem) (m : Balancers)
    → Latest key (addresses_at key (balancers_from services m)) services
      ⊎ (NoneAt key services × (addresses_at key (balancers_from services m) ≡ addresses_at key m))
unfolding balancers_from
after key [] m = inr (tt, refl)
after key (s ∷ services) m = elim (after key services (add_service s m)) [
  | inl l ↦ inl (record {
    earlier = s ∷ l.earlier;
    service = l.service;
    later = l.later;
    split = ap (λ ss. s ∷ ss) l.split;
    offers = l.offers;
    last = l.last;
  })
  | inr (none_later, same) ↦ elim (turn s) [
    | inl (k, addresses, o, sets) ↦ elim (Bool-cases (k == key)) [
      | inl e ↦
          let here : k ≡ key = (eq_iff k key).0 e in
          let found : addresses ≡ addresses_at key (balancers_from services (add_service s m)) =
            sym (
              same
              ∙ ap (addresses_at key) (sets m ∙ ap (λ x. set x addresses m) here)
              ∙ addresses_at-set key addresses m) in
          inl (record {
            earlier = [];
            service = s;
            later = services;
            split = refl;
            offers = subst (λ l. Offers key l s) found (subst (λ x. Offers x addresses s) here o);
            last = none_later;
          })
      | inr e ↦
          let other : k ≢ key = λ eq. ground (arith, eq_iff k key) in
          inr (
            (λ bs p. other (sym o.keyed ∙ p.keyed), none_later),
            same ∙ ap (addresses_at key) (sets m) ∙ addresses_at-set_other key k addresses m other,
          )
    ]
    | inr (silent, keeps) ↦ inr ((silent key, none_later), same ∙ ap (addresses_at key) (keeps m))
  ]
]

-- The map of some services has at a key the addresses of the last of them with that key.
pub Latest-of_addresses :
    (key : String) (services : List ServiceItem)
    → addresses_at key (balancers_from services []) ≢ []
    → Latest key (addresses_at key (balancers_from services [])) services
Latest-of_addresses key services there = elim (after key services []) [
  | inl l ↦ l
  | inr (absent, same) ↦ absurd (there (same ∙ unfold addresses_at in refl))
]

pub NoneAt-of_addresses :
    (key : String) (services : List ServiceItem)
    → addresses_at key (balancers_from services []) ≡ []
    → NoneAt key services
NoneAt-of_addresses key services absent = elim (after key services []) [
  | inl l ↦ absurd (l.offers.some_addresses absent)
  | inr (none_there, same) ↦ none_there
]
