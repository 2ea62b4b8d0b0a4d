-- ===== src/Devices/Observer/Bindings/Claimed.antt =====
-- The claims of devices/observer.py: what holds of the devices that are bound so far.
use jebao_flow_engine.Base.{
  ◌≡◌, sym, ◌∙◌, ap, subst, true, false, none, some, List, ◌∷◌, String, str_eq, eq_iff, eq_refl,
  ◌⊎◌, inl, inr, Bool-cases, Option-cases, arith,
}
use jebao_flow_engine.Base.Dict.{Dict, lookup, insert, lookup-insert}
use jebao_flow_engine.Config.{DeviceConfig, DeviceIdentityConfig}
use jebao_flow_engine.Devices.Observer.Bindings.{
  Claims, ResolvedDevice, claim, claim_candidate, has_type, is_claimed, is_endpoint,
  is_product_type,
}
use jebao_flow_engine.Protocol.Models.{DiscoveredDevice}
use mathlib.Core.Bool.{false≢true}
use mathlib.Core.Option.{some-injective}
use jebao_flow_engine.Devices.Observer.Bindings.Candidates.{Among, HasIdentity}

lookup-insert_cases :
    (key other : String) (value result : ResolvedDevice) (d : Dict ResolvedDevice)
    → lookup other (insert key value d) ≡ some result
    → ((key ≡ other) × (value ≡ result)) ⊎ (lookup other d ≡ some result)
lookup-insert_cases key other value result d h =
    let e = sym (lookup-insert key other value d) ∙ h in
    elim (Bool-cases (str_eq key other)) [
      | inl same ↦ inl ((eq_iff key other).0 same, some-injective value result (rw same at e))
      | inr apart ↦ inr (rw apart at e)
    ]

module _ (compact : String → String) (discovered : List DiscoveredDevice) where
  abbrev pub IsDevice : ResolvedDevice → DiscoveredDevice → Type 0
  IsDevice r device =
      Among device discovered
      × (device.address ≡ r.address)
      × (device.product_key ≡ some r.product_key)

  -- What a configured device is bound to: without an identity, its own address, with its own product key or that of
  -- the device discovered there; with an identity, a discovered device that has it.
  pub record IsBinding (config : DeviceConfig) (r : ResolvedDevice) : Type 0 where
    pub named : r.logical_id ≡ config.id
    pub typed : is_product_type r.product_key config.type ≡ true
    pub bound :
        ((config.identity ≡ none)
          × (config.address ≡ some r.address)
          × ((config.product_key ≡ some r.product_key)
              ⊎ ((config.product_key ≡ none) × ((device : DiscoveredDevice) × IsDevice r device))))
        ⊎ ((identity : DeviceIdentityConfig) × (config.identity ≡ some identity)
            × ((device : DiscoveredDevice) × IsDevice r device
                × HasIdentity compact config identity device))

  module _ (configs : List DeviceConfig) where
    pub record IsSound (c : Claims) : Type 0 where
      pub binds :
          (id : String) (r : ResolvedDevice)
          → lookup id c.resolved ≡ some r
          → (config : DeviceConfig) × Among config configs × (config.id ≡ id) × IsBinding config r
      pub holds :
          (id : String) (r : ResolvedDevice)
          → lookup id c.resolved ≡ some r
          → is_claimed r.address r.product_key c ≡ true
      pub distinct :
          (id other : String) (r s : ResolvedDevice)
          → lookup id c.resolved ≡ some r
          → lookup other c.resolved ≡ some s
          → r.address ≡ s.address
          → r.product_key ≡ s.product_key
          → id ≡ other

    first_claimed :
        (address product_key : String) (c : Claims)
        → is_claimed address product_key
            (record c { claimed_endpoints = (address, product_key) ∷ c.claimed_endpoints })
          ≡ true
    unfolding is_claimed is_endpoint
    first_claimed address product_key c = simp (eq_refl)

    later_claimed :
        (address product_key other_address other_key : String) (c : Claims)
        → is_claimed other_address other_key c ≡ true
        → is_claimed other_address other_key
            (record c { claimed_endpoints = (address, product_key) ∷ c.claimed_endpoints })
          ≡ true
    unfolding is_claimed
    later_claimed address product_key other_address other_key c h = ground (arith, h)

    free_ne_held :
        (address product_key : String) (s : ResolvedDevice) (c : Claims)
        → is_claimed address product_key c ≡ false
        → is_claimed s.address s.product_key c ≡ true
        → address ≡ s.address
        → product_key ≡ s.product_key
        → ⊥
    free_ne_held address product_key s c free held a p =
        false≢true (sym free ∙ (λ i. is_claimed (a i) (p i) c) ∙ held)

    pub claim-IsSound :
        (config : DeviceConfig) (address product_key : String) (c : Claims)
        → Among config configs
        → IsBinding config
            (record { logical_id = config.id; address = address; product_key = product_key })
        → IsSound c
        → IsSound (claim config address product_key c)
    unfolding claim
    claim-IsSound config address product_key c among binding sound =
        let new : ResolvedDevice = record {
          logical_id = config.id;
          address = address;
          product_key = product_key;
        } in
        elim (Bool-cases (is_claimed address product_key c)) [
          | inl taken ↦ rw taken sound
          | inr free ↦ rw free (record {
            binds = λ id r h. elim (lookup-insert_cases config.id id new r c.resolved h) [
              | inl (same, is_new) ↦ (config, among, same, subst (IsBinding config) is_new binding)
              | inr old ↦ sound.binds id r old
            ];
            holds = λ id r h. elim (lookup-insert_cases config.id id new r c.resolved h) [
              | inl (same, is_new) ↦
                  subst
                    (λ (x : ResolvedDevice).
                      is_claimed x.address x.product_key (record c {
                        claimed_endpoints = (address, product_key) ∷ c.claimed_endpoints;
                      })
                      ≡ true)
                    is_new (first_claimed address product_key c)
              | inr old ↦
                  later_claimed address product_key r.address r.product_key c (sound.holds id r old)
            ];
            distinct = λ id other r s h k a p.
                elim (lookup-insert_cases config.id id new r c.resolved h) [
                  | inl (same, is_new) ↦
                      elim (lookup-insert_cases config.id other new s c.resolved k) [
                        | inl (same_other, _) ↦ sym same ∙ same_other
                        | inr old ↦ absurd (
                            free_ne_held address product_key s c free (sound.holds other s old)
                              (ap (λ (x : ResolvedDevice). x.address) is_new ∙ a)
                              (ap (λ (x : ResolvedDevice). x.product_key) is_new ∙ p))
                      ]
                  | inr old ↦ elim (lookup-insert_cases config.id other new s c.resolved k) [
                    | inl (same_other, is_new) ↦ absurd (
                        free_ne_held address product_key r c free (sound.holds id r old)
                          (ap (λ (x : ResolvedDevice). x.address) is_new ∙ sym a)
                          (ap (λ (x : ResolvedDevice). x.product_key) is_new ∙ sym p))
                    | inr old_other ↦ sound.distinct id other r s old old_other a p
                  ]
                ];
          })
        ]

    pub claim_candidate-IsSound :
        (config : DeviceConfig) (candidate : DiscoveredDevice) (c : Claims)
        → Among config configs
        → ((product_key : String)
            → candidate.product_key ≡ some product_key
            → IsBinding config (record {
              logical_id = config.id;
              address = candidate.address;
              product_key = product_key;
            }))
        → IsSound c
        → IsSound (claim_candidate config candidate c)
    unfolding claim_candidate
    claim_candidate-IsSound config candidate c among binding sound =
        elim (Option-cases candidate.product_key) [
          | inl missing ↦ rw missing sound
          | inr (product_key, found) ↦ rw found (
              claim-IsSound config candidate.address product_key c among (binding product_key found)
                sound)
        ]

    pub has_type-typed :
        (config : DeviceConfig) (candidate : DiscoveredDevice) (product_key : String)
        → has_type config candidate ≡ true
        → candidate.product_key ≡ some product_key
        → is_product_type product_key config.type ≡ true
    unfolding has_type
    has_type-typed config candidate product_key h found = rw found at h
