-- ===== src/Devices/Observer/Bindings.antt =====
-- `resolve_device_bindings` of devices/observer.py: which discovered device is which configured one.
pub mod Candidates
pub mod Claimed
pub mod Sound
use jebao_flow_engine.Base.{
  Bool, true, false, not, ◌&&◌, ◌||◌, Option, none, some, List, [], ◌∷◌, String, str_eq, any, keep,
  if◌then◌else◌, option_eq,
}
use jebao_flow_engine.Base.Dict.{Dict, lookup, insert}
use jebao_flow_engine.Config.{
  DeviceConfig, DeviceIdentityConfig, DeviceType, wavemaker, return_pump, dosing_pump,
}
use jebao_flow_engine.Protocol.Models.{DiscoveredDevice}

pub record ResolvedDevice : Type 0 where
  pub logical_id : String
  pub address : String
  pub product_key : String

abbrev pub type_eq : DeviceType → DeviceType → Bool
type_eq wavemaker wavemaker = true
type_eq return_pump return_pump = true
type_eq dosing_pump dosing_pump = true
type_eq _ _ = false

unfoldable pub product_types : Dict DeviceType
product_types =
    ("0696a19599bc484f8e1866f5ccf4ee7e", return_pump)
    ∷ ("1d8c63eaccac4205b92c84d77d5a08fb", wavemaker)
    ∷ ("50dbc92221fd4d33ae69a1fedd43b555", wavemaker)
    ∷ ("5b3c136fd4b74f3fb2a366a254c76c9a", dosing_pump)
    ∷ ("6a5c47b3ea364ecb841b47f5997a1775", return_pump)
    ∷ []

-- `_PRODUCT_TYPES.get(product_key) is config.type`
unfoldable pub is_product_type : String → DeviceType → Bool
unfolding product_types
is_product_type product_key type = elim (lookup product_key product_types) [
  | none ↦ false
  | some product_type ↦ type_eq product_type type
]

-- The three local variables of the loop.
pub record Claims : Type 0 where
  pub resolved : Dict ResolvedDevice
  pub claimed_vendor_ids : List String
  pub claimed_endpoints : List (String × String)

unfoldable pub is_endpoint : String → String → String × String → Bool
is_endpoint address product_key endpoint =
    str_eq endpoint.0 address && str_eq endpoint.1 product_key

unfoldable pub is_claimed : String → String → Claims → Bool
unfolding is_endpoint
is_claimed address product_key c = any (is_endpoint address product_key) c.claimed_endpoints

-- An endpoint for a device, unless another device has it.
unfoldable pub claim : DeviceConfig → String → String → Claims → Claims
unfolding is_claimed
claim config address product_key c = if is_claimed address product_key c then c else record c {
  claimed_endpoints = (address, product_key) ∷ c.claimed_endpoints;
  resolved =
      insert config.id
        (record { logical_id = config.id; address = address; product_key = product_key })
        c.resolved;
}

-- A configured address and product key.
unfoldable pub bind_configured : DeviceConfig → String → String → Claims → Claims
unfolding is_product_type claim
bind_configured config address product_key c =
    if is_product_type product_key config.type then claim config address product_key c else c

-- `candidate.product_key is not None and _PRODUCT_TYPES.get(candidate.product_key) is config.type`
unfoldable pub has_type : DeviceConfig → DiscoveredDevice → Bool
unfolding is_product_type
has_type config candidate = elim candidate.product_key [
  | none ↦ false
  | some product_key ↦ is_product_type product_key config.type
]

unfoldable pub is_at : DeviceConfig → String → DiscoveredDevice → Bool
unfolding has_type
is_at config address candidate = str_eq candidate.address address && has_type config candidate

-- The candidate, if it is the only one.
abbrev pub single {ℓ} : {A : Type ℓ} → List A → Option A
single (a ∷ []) = some a
single _ = none

-- The claim of a candidate, whose product key is checked before.
unfoldable pub claim_candidate : DeviceConfig → DiscoveredDevice → Claims → Claims
unfolding claim
claim_candidate config candidate c = elim candidate.product_key [
  | none ↦ c
  | some product_key ↦ claim config candidate.address product_key c
]

unfoldable pub bind_address : DeviceConfig → String → List DiscoveredDevice → Claims → Claims
unfolding is_at claim_candidate
bind_address config address discovered c = elim (single (keep (is_at config address) discovered)) [
  | none ↦ c
  | some candidate ↦ claim_candidate config candidate c
]

-- `if wanted is not None: candidates = [… if test(wanted, candidate)]`
unfoldable pub narrow :
    Option String
    → (String → DiscoveredDevice → Bool)
    → List DiscoveredDevice
    → List DiscoveredDevice
narrow none test candidates = candidates
narrow (some wanted) test candidates = keep (test wanted) candidates

-- `compact` is `value.replace(":", "").replace("-", "").lower()`.
module _ (compact : String → String) where
  unfoldable pub compact_mac : Option String → Option String
  compact_mac none = none
  compact_mac (some value) = some (compact value)

  abbrev pub has_vendor_id : String → DiscoveredDevice → Bool
  has_vendor_id wanted candidate = str_eq candidate.device_id wanted

  unfoldable pub has_mac : String → DiscoveredDevice → Bool
  unfolding compact_mac
  has_mac wanted candidate = option_eq str_eq (compact_mac candidate.mac_address) (some wanted)

  abbrev pub has_product_key : String → DiscoveredDevice → Bool
  has_product_key wanted candidate = option_eq str_eq candidate.product_key (some wanted)

  unfoldable pub candidates_of :
      DeviceConfig → DeviceIdentityConfig → List DiscoveredDevice → List DiscoveredDevice
  unfolding narrow has_mac
  candidates_of config identity discovered =
      narrow config.product_key has_product_key
        (narrow identity.mac_address has_mac (narrow identity.device_id has_vendor_id discovered))

  unfoldable pub claim_vendor : DeviceConfig → DiscoveredDevice → Claims → Claims
  unfolding has_type claim_candidate
  claim_vendor config candidate c =
      if any (str_eq candidate.device_id) c.claimed_vendor_ids || not (has_type config candidate)
      then c
      else claim_candidate config candidate
          (record c { claimed_vendor_ids = candidate.device_id ∷ c.claimed_vendor_ids })

  unfoldable pub bind_identity :
      DeviceConfig → DeviceIdentityConfig → List DiscoveredDevice → Claims → Claims
  unfolding candidates_of claim_vendor
  bind_identity config identity discovered c =
      elim (single (candidates_of config identity discovered)) [
        | none ↦ c
        | some candidate ↦ claim_vendor config candidate c
      ]

  -- A device without an identity.
  unfoldable pub bind_plain :
      DeviceConfig → Option String → Option String → List DiscoveredDevice → Claims → Claims
  unfolding bind_configured bind_address
  bind_plain config none product_key discovered c = c
  bind_plain config (some address) (some product_key) discovered c =
      bind_configured config address product_key c
  bind_plain config (some address) none discovered c = bind_address config address discovered c

  -- The body of the loop.
  unfoldable pub bind_device :
      DeviceConfig → Option DeviceIdentityConfig → List DiscoveredDevice → Claims → Claims
  unfolding bind_plain bind_identity
  bind_device config none discovered c =
      bind_plain config config.address config.product_key discovered c
  bind_device config (some identity) discovered c = bind_identity config identity discovered c

  unfoldable pub bind_devices : List DeviceConfig → List DiscoveredDevice → Claims → Claims
  unfolding bind_device
  bind_devices [] discovered c = c
  bind_devices (config ∷ configs) discovered c =
      bind_devices configs discovered (bind_device config config.identity discovered c)

  unfoldable pub resolve_device_bindings :
      List DeviceConfig → List DiscoveredDevice → Dict ResolvedDevice
  unfolding bind_devices
  resolve_device_bindings configs discovered =
      (bind_devices configs discovered
        (record { resolved = []; claimed_vendor_ids = []; claimed_endpoints = [] })).resolved
