-- ===== src/Devices/Observer/Bindings/Sound.antt =====
-- What `resolve_device_bindings` of devices/observer.py binds: exact identities, and no endpoint twice.
use jebao_flow_engine.Base.{
  ◌≡◌, refl, sym, ◌∙◌, ap, not, ◌||◌, Option, none, some, List, [], ◌∷◌, String, str_eq, any, keep,
  eq_iff, inl, inr, Bool-cases, Option-cases,
}
use jebao_flow_engine.Base.Dict.{lookup, lookup-nil}
use jebao_flow_engine.Config.{DeviceConfig, DeviceIdentityConfig}
use jebao_flow_engine.Devices.Observer.Bindings.{
  Claims, ResolvedDevice, bind_address, bind_configured, bind_device, bind_devices, bind_identity,
  bind_plain, candidates_of, claim_vendor, has_type, is_at, is_claimed, is_product_type,
  resolve_device_bindings, single,
}
use jebao_flow_engine.Protocol.Models.{DiscoveredDevice}
use mathlib.Core.Option.{none-ne-some}
use jebao_flow_engine.Devices.Observer.Bindings.Candidates.{
  Among, Among-keep, Among-single, HasIdentity, and-true, or-false_right, candidates_of-HasIdentity,
}
use jebao_flow_engine.Devices.Observer.Bindings.Claimed.{
  IsBinding, IsSound, claim-IsSound, claim_candidate-IsSound, has_type-typed,
}

module _ (compact : String → String) (discovered : List DiscoveredDevice)
    (configs : List DeviceConfig) where
  bind_configured-IsSound :
      (config : DeviceConfig) (address product_key : String) (c : Claims)
      → Among config configs
      → config.identity ≡ none
      → config.address ≡ some address
      → config.product_key ≡ some product_key
      → IsSound compact discovered configs c
      → IsSound compact discovered configs (bind_configured config address product_key c)
  unfolding bind_configured
  bind_configured-IsSound config address product_key c among plain at_address keyed sound =
      elim (Bool-cases (is_product_type product_key config.type)) [
        | inr other ↦ rw other sound
        | inl typed ↦ rw typed (
            claim-IsSound compact discovered configs config address product_key c among
              (record { named = refl; typed = typed; bound = inl (plain, at_address, inl keyed) })
              sound)
      ]

  bind_address-IsSound :
      (config : DeviceConfig) (address : String) (c : Claims)
      → Among config configs
      → config.identity ≡ none
      → config.address ≡ some address
      → config.product_key ≡ none
      → IsSound compact discovered configs c
      → IsSound compact discovered configs (bind_address config address discovered c)
  unfolding bind_address is_at
  bind_address-IsSound config address c among plain at_address keyless sound =
      elim (Option-cases (single (keep (is_at config address) discovered))) [
        | inl missing ↦ rw (bind_address, missing) sound
        | inr (candidate, found) ↦
            let (seen, fits) =
              Among-keep (is_at config address) candidate discovered
                (Among-single candidate _ found) in
            let (same, typed) =
              and-true (str_eq candidate.address address) (has_type config candidate) fits in
            let here = (eq_iff candidate.address address).0 same in
            rw (bind_address, found)
              (claim_candidate-IsSound compact discovered configs config candidate c among
                (λ product_key keyed. record {
                  named = refl;
                  typed =
                      has_type-typed compact discovered configs config candidate product_key typed
                        keyed;
                  bound = inl (
                    plain,
                    at_address ∙ ap some (sym here),
                    inr (keyless, (candidate, (seen, refl, keyed))),
                  );
                })
                sound)
      ]

  claim_vendor-IsSound :
      (config : DeviceConfig) (identity : DeviceIdentityConfig) (candidate : DiscoveredDevice)
      (c : Claims)
      → Among config configs
      → config.identity ≡ some identity
      → Among candidate discovered
      → HasIdentity compact config identity candidate
      → IsSound compact discovered configs c
      → IsSound compact discovered configs (claim_vendor compact config candidate c)
  unfolding claim_vendor is_claimed
  claim_vendor-IsSound config identity candidate c among identified seen has_it sound =
      elim (Bool-cases (
        any (str_eq candidate.device_id) c.claimed_vendor_ids || not (has_type config candidate))) [
          | inl refused ↦ rw refused sound
          | inr taken ↦ rw taken (
              claim_candidate-IsSound compact discovered configs config candidate
                (record c { claimed_vendor_ids = candidate.device_id ∷ c.claimed_vendor_ids }) among
                (λ product_key keyed. record {
                  named = refl;
                  typed =
                      has_type-typed compact discovered configs config candidate product_key
                        (or-false_right _ _ taken) keyed;
                  bound = inr (identity, identified, (candidate, (seen, refl, keyed), has_it));
                })
                (record { binds = sound.binds; holds = sound.holds; distinct = sound.distinct }))
        ]

  bind_identity-IsSound :
      (config : DeviceConfig) (identity : DeviceIdentityConfig) (c : Claims)
      → Among config configs
      → config.identity ≡ some identity
      → IsSound compact discovered configs c
      → IsSound compact discovered configs (bind_identity compact config identity discovered c)
  unfolding bind_identity
  bind_identity-IsSound config identity c among identified sound =
      elim (Option-cases (single (candidates_of compact config identity discovered))) [
        | inl missing ↦ rw (bind_identity, missing) sound
        | inr (candidate, found) ↦
            let (seen, has_it) =
              candidates_of-HasIdentity compact discovered config identity candidate
                (Among-single candidate _ found) in
            rw (bind_identity, found)
              (claim_vendor-IsSound config identity candidate c among identified seen has_it sound)
      ]

  bind_plain-IsSound :
      (config : DeviceConfig) (address product_key : Option String) (c : Claims)
      → Among config configs
      → config.identity ≡ none
      → config.address ≡ address
      → config.product_key ≡ product_key
      → IsSound compact discovered configs c
      → IsSound compact discovered configs
          (bind_plain compact config address product_key discovered c)
  unfolding bind_plain
  bind_plain-IsSound config none product_key c among plain a p sound = sound
  bind_plain-IsSound config (some address) (some product_key) c among plain a p sound =
      bind_configured-IsSound config address product_key c among plain a p sound
  bind_plain-IsSound config (some address) none c among plain a p sound =
      bind_address-IsSound config address c among plain a p sound

  bind_device-IsSound :
      (config : DeviceConfig) (identity : Option DeviceIdentityConfig) (c : Claims)
      → Among config configs
      → config.identity ≡ identity
      → IsSound compact discovered configs c
      → IsSound compact discovered configs (bind_device compact config identity discovered c)
  unfolding bind_device
  bind_device-IsSound config none c among e sound =
      bind_plain-IsSound config config.address config.product_key c among e refl refl sound
  bind_device-IsSound config (some identity) c among e sound =
      bind_identity-IsSound config identity c among e sound

  bind_devices-IsSound :
      (rest : List DeviceConfig) (c : Claims)
      → ((config : DeviceConfig) → Among config rest → Among config configs)
      → IsSound compact discovered configs c
      → IsSound compact discovered configs (bind_devices compact rest discovered c)
  unfolding bind_devices
  bind_devices-IsSound [] c all_among sound = sound
  bind_devices-IsSound (config ∷ rest) c all_among sound =
      bind_devices-IsSound rest _ (λ other h. all_among other (inr h))
        (bind_device-IsSound config config.identity c (all_among config (inl refl)) refl sound)

  resolve_device_bindings-IsSound :
      (claims : Claims)
      → claims.resolved ≡ []
      → claims.claimed_endpoints ≡ []
      → IsSound compact discovered configs (bind_devices compact configs discovered claims)
  resolve_device_bindings-IsSound claims empty unclaimed =
      let nothing = λ (id : String) (r : ResolvedDevice) (h : lookup id claims.resolved ≡ some r).
        none-ne-some r (sym (lookup-nil id) ∙ (ap (lookup id) (sym empty) ∙ h)) in
      bind_devices-IsSound configs claims (λ config h. h)
        (record {
          binds = λ id r h. absurd (nothing id r h);
          holds = λ id r h. absurd (nothing id r h);
          distinct = λ id other r s h k a p. absurd (nothing id r h);
        })

  -- Each device that `resolve_device_bindings` resolves is a configured one, of the type of its product. Without an
  -- identity it is bound to its configured address, with its configured product key or that of the device discovered
  -- there; with an identity, to a discovered device that has this identity, and the configured product key, if there
  -- is one.
  pub resolve_device_bindings-IsBinding :
      (id : String) (r : ResolvedDevice)
      → lookup id (resolve_device_bindings compact configs discovered) ≡ some r
      → (config : DeviceConfig) × Among config configs
        × (config.id ≡ id)
        × IsBinding compact discovered config r
  unfolding resolve_device_bindings
  resolve_device_bindings-IsBinding id r h =
      (resolve_device_bindings-IsSound _ refl refl).binds id r h

  -- No two devices are bound to the same address and product key.
  pub resolve_device_bindings-distinct :
      (id other : String) (r s : ResolvedDevice)
      → lookup id (resolve_device_bindings compact configs discovered) ≡ some r
      → lookup other (resolve_device_bindings compact configs discovered) ≡ some s
      → r.address ≡ s.address
      → r.product_key ≡ s.product_key
      → id ≡ other
  unfolding resolve_device_bindings
  resolve_device_bindings-distinct id other r s h k a p =
      (resolve_device_bindings-IsSound _ refl refl).distinct id other r s h k a p
