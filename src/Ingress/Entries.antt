-- ===== src/Ingress/Entries.antt =====
-- The entries of the map of buildLoadBalancerServiceMap of frontend/src/utils/ingress.ts, each with a key
-- of its own.
use pertisk_kube_app.Base.{
  String, ◌≡◌, ◌≢◌, refl, sym, ap, subst, ◌∙◌, Bool, true, inl, inr, List, [], ◌∷◌, arith, eq_iff,
  ◌==◌, Bool-cases,
}
use pertisk_kube_app.Base.Lists.{All, All-filter, filter}
use pertisk_kube_app.Ingress.{
  ServiceItem, Balancers, set, add_service, addresses_at, balancers_from,
}
use pertisk_kube_app.Ingress.Services.{turn}

abbrev IsElsewhere : String → Balancers → Type 0
IsElsewhere key m = All (λ e. e.0 ≢ key) m

-- No key stands twice.
abbrev pub IsMap : Balancers → Type 0
IsMap [] = Unit
IsMap ((k, addresses) ∷ m) = IsElsewhere k m × IsMap m

IsElsewhere-set :
    (key k : String) (addresses : List String) (m : Balancers)
    → k ≢ key
    → IsElsewhere key m
    → IsElsewhere key (set k addresses m)
unfolding set
IsElsewhere-set key k addresses [] other h = (other, tt)
IsElsewhere-set key k addresses ((j, old) ∷ m) other (first, h) = elim (Bool-cases (j == k)) [
  | inl e ↦ rw (e, set) (first, h)
  | inr e ↦ rw (e, set) (first, IsElsewhere-set key k addresses m other h)
]

IsMap-set :
    (key : String) (addresses : List String) (m : Balancers) → IsMap m → IsMap (set key addresses m)
unfolding set
IsMap-set key addresses [] h = (tt, tt)
IsMap-set key addresses ((j, old) ∷ m) (first, h) = elim (Bool-cases (j == key)) [
  | inl e ↦ rw (e, set) (first, h)
  | inr e ↦
      rw (e, set)
        (
          IsElsewhere-set j key addresses m (λ same. ground (arith, eq_iff j key)) first,
          IsMap-set key addresses m h,
        )
]

pub IsMap-balancers :
    (services : List ServiceItem) (m : Balancers) → IsMap m → IsMap (balancers_from services m)
unfolding balancers_from
IsMap-balancers [] m h = h
IsMap-balancers (s ∷ services) m h = elim (turn s) [
  | inl (key, addresses, o, sets) ↦
      IsMap-balancers services (add_service s m)
        (subst IsMap (sym (sets m)) (IsMap-set key addresses m h))
  | inr (silent, keeps) ↦ IsMap-balancers services (add_service s m) (subst IsMap (sym (keeps m)) h)
]

abbrev HasAddresses : String × List String → Type 0
HasAddresses e = e.1 ≢ []

HasAddresses-set :
    (key : String) (addresses : List String) (m : Balancers)
    → addresses ≢ []
    → All HasAddresses m
    → All HasAddresses (set key addresses m)
unfolding set
HasAddresses-set key addresses [] some_addresses h = (some_addresses, tt)
HasAddresses-set key addresses ((j, old) ∷ m) some_addresses (first, h) =
    elim (Bool-cases (j == key)) [
      | inl e ↦ rw (e, set) (some_addresses, h)
      | inr e ↦ rw (e, set) (first, HasAddresses-set key addresses m some_addresses h)
    ]

pub HasAddresses-balancers :
    (services : List ServiceItem) (m : Balancers)
    → All HasAddresses m
    → All HasAddresses (balancers_from services m)
unfolding balancers_from
HasAddresses-balancers [] m h = h
HasAddresses-balancers (s ∷ services) m h = elim (turn s) [
  | inl (key, addresses, o, sets) ↦ HasAddresses-balancers services (add_service s m) (
      subst (All HasAddresses) (sym (sets m)) (HasAddresses-set key addresses m o.some_addresses h))
  | inr (silent, keeps) ↦
      HasAddresses-balancers services (add_service s m) (subst (All HasAddresses) (sym (keeps m)) h)
]

-- The entries whose keys pass a test
module _ (p : String → Bool) where
  abbrev pub near : Balancers → Balancers
  near m = filter (λ e. p e.0) m

  pub IsMap-near : (m : Balancers) → IsMap m → IsMap (near m)
  IsMap-near [] h = tt
  IsMap-near ((k, addresses) ∷ m) (first, h) = elim (Bool-cases (p k)) [
    | inl e ↦ rw e (All-filter (λ x. x.0 ≢ k) (λ x. p x.0) m first, IsMap-near m h)
    | inr e ↦ rw e (IsMap-near m h)
  ]

  pub addresses_at-near :
      (key : String) (m : Balancers) → p key ≡ true → addresses_at key (near m) ≡ addresses_at key m
  unfolding addresses_at
  addresses_at-near key [] passes = refl
  addresses_at-near key ((k, addresses) ∷ m) passes = elim (Bool-cases (k == key)) [
    | inl e ↦ let here : p k ≡ true = ap p ((eq_iff k key).0 e) ∙ passes in rw here (rw e refl)
    | inr e ↦ ground (arith, addresses_at-near key m passes)
  ]

  pub near-passes : (m : Balancers) → All (λ e. p e.0 ≡ true) (near m)
  near-passes [] = tt
  near-passes ((k, addresses) ∷ m) = elim (Bool-cases (p k)) [
    | inl e ↦ rw e (e, near-passes m)
    | inr e ↦ rw e (near-passes m)
  ]
