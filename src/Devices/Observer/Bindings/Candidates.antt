-- ===== src/Devices/Observer/Bindings/Candidates.antt =====
-- The devices that `resolve_device_bindings` of devices/observer.py takes for a configured identity.
use jebao_flow_engine.Base.{
  ◌≡◌, refl, ap, subst, Bool, true, false, not, ◌&&◌, ◌||◌, Option, none, some, List, [], ◌∷◌,
  String, str_eq, keep, eq_iff, ◌⊎◌, inl, inr, Bool-cases, option_eq,
}
use jebao_flow_engine.Config.{DeviceConfig, DeviceIdentityConfig}
use jebao_flow_engine.Devices.Observer.Bindings.{
  candidates_of, compact_mac, has_mac, has_product_key, has_vendor_id, narrow, single,
}
use jebao_flow_engine.Protocol.Models.{DiscoveredDevice}
use mathlib.Core.Option.{none-ne-some, some-injective}

-- An element of a list.
abbrev pub Among : {A : Type 0} → A → List A → Type 0
Among a [] = ⊥
Among a (x ∷ xs) = (x ≡ a) ⊎ Among a xs

pub Among-keep :
    {A : Type 0} (p : A → Bool) (a : A) (xs : List A)
    → Among a (keep p xs)
    → Among a xs × (p a ≡ true)
Among-keep p a [] h = absurd h
Among-keep p a (x ∷ xs) h = elim (Bool-cases (p x)) [
  | inl yes_p ↦ elim (rw yes_p at h) [
    | inl same ↦ (inl same, subst (λ y. p y ≡ true) same yes_p)
    | inr later ↦ let (found, holds) = Among-keep p a xs later in (inr found, holds)
  ]
  | inr no_p ↦ let (found, holds) = Among-keep p a xs (rw no_p at h) in (inr found, holds)
]

Among-narrow :
    (wanted : Option String) (test : String → DiscoveredDevice → Bool) (a : DiscoveredDevice)
    (xs : List DiscoveredDevice)
    → Among a (narrow wanted test xs)
    → Among a xs × ((w : String) → wanted ≡ some w → test w a ≡ true)
unfolding narrow
Among-narrow none test a xs h = (h, λ w e. absurd (none-ne-some w e))
Among-narrow (some wanted) test a xs h =
    let (found, holds) = Among-keep (test wanted) a xs h in
    (found, λ w e. subst (λ v. test v a ≡ true) (some-injective wanted w e) holds)

pub Among-single : {A : Type 0} (a : A) (xs : List A) → single xs ≡ some a → Among a xs
Among-single a (x ∷ []) h = inl (some-injective x a h)
Among-single a [] h = absurd (none-ne-some a h)
Among-single a (x ∷ y ∷ xs) h = absurd (none-ne-some a h)

pub and-true : (a b : Bool) → (a && b) ≡ true → (a ≡ true) × (b ≡ true)
and-true true b h = (refl, h)
and-true false b h = cc

pub or-false_right : (a b : Bool) → (a || not b) ≡ false → b ≡ true
or-false_right true b h = cc
or-false_right false true h = refl
or-false_right false false h = cc

option_eq-some : (o : Option String) (s : String) → option_eq str_eq o (some s) ≡ true → o ≡ some s
option_eq-some none s h = cc
option_eq-some (some t) s h = ap some ((eq_iff t s).0 h)

-- A discovered device that has what an identity asks for.
pub record HasIdentity (compact : String → String) (config : DeviceConfig)
    (identity : DeviceIdentityConfig) (device : DiscoveredDevice) : Type 0 where
  pub vendor : (v : String) → identity.device_id ≡ some v → device.device_id ≡ v
  pub mac :
      (m : String) → identity.mac_address ≡ some m → compact_mac compact device.mac_address ≡ some m
  pub product : (p : String) → config.product_key ≡ some p → device.product_key ≡ some p

module _ (compact : String → String) (discovered : List DiscoveredDevice) where
  pub candidates_of-HasIdentity :
      (config : DeviceConfig) (identity : DeviceIdentityConfig) (device : DiscoveredDevice)
      → Among device (candidates_of compact config identity discovered)
      → Among device discovered × HasIdentity compact config identity device
  unfolding candidates_of has_mac
  candidates_of-HasIdentity config identity device h =
      let (h1, product) = Among-narrow config.product_key (has_product_key compact) device _ h in
      let (h2, mac) = Among-narrow identity.mac_address (has_mac compact) device _ h1 in
      let (h3, vendor) = Among-narrow identity.device_id (has_vendor_id compact) device _ h2 in
      (
        h3,
        record {
          vendor = λ v e. (eq_iff device.device_id v).0 (vendor v e);
          mac = λ m e. option_eq-some (compact_mac compact device.mac_address) m (mac m e);
          product = λ p e. option_eq-some device.product_key p (product p e);
        },
      )
