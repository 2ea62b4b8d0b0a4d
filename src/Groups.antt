-- ===== src/Groups.antt =====
-- groups/models.py: configuration and runtime records of logical pump groups. `Float` is the type
-- of Python's floats.
use jebao_flow_engine.Base.{
  ℕ, Bool, true, false, not, Option, none, some, List, [], ◌∷◌, String, str_eq, leb, any, ◌||◌,
}
use jebao_flow_engine.Floats.{Floats}
use jebao_flow_engine.Base.Result.{Result, ◌>>◌, ensure, value_error}

pub data PatternKind : Type 0 where
  constant sync anti_phase lagoon reef_crest gyre tidal_swell nutrient_transport : PatternKind
  sine random_reef tide native : PatternKind

pub data GroupState : Type 0 where
  stopped starting running feeding maintenance degraded error emergency_stop : GroupState

pub data OfflinePolicy : Type 0 where
  stop_group continue continue_limited fallback_constant : OfflinePolicy

pub data GroupMemberRole : Type 0 where
  left right crossflow support : GroupMemberRole

pub record GroupMember (Float : Type 0) : Type 0 where
  pub device : String
  pub role : GroupMemberRole
  pub gain : Float
  pub phase : Float
  pub invert : Bool
  pub enabled : Bool

pub record GroupDefaults (Float : Type 0) : Type 0 where
  pub min_power : ℕ
  pub max_power : ℕ
  pub pattern : PatternKind
  pub power : ℕ
  pub period_seconds : Float
  pub transition_seconds : Float

pub record FailurePolicy : Type 0 where
  pub on_member_offline : OfflinePolicy
  pub remaining_member_max_power : ℕ

pub record GroupConfig (Float : Type 0) : Type 0 where
  pub id : String
  pub name : String
  pub enabled : Bool
  pub members : List (GroupMember Float)
  pub default : GroupDefaults Float
  pub failure_policy : FailurePolicy

pub record GroupRuntime (Float : Type 0) : Type 0 where
  pub state : GroupState
  pub enabled : Option Bool
  pub pattern : Option PatternKind
  pub power : Option ℕ
  pub min_power : Option ℕ
  pub max_power : Option ℕ
  pub period_seconds : Option Float
  pub started_at : Float

-- `None if value is None else test(value)`
abbrev pub holds_of {ℓ} : {A : Type ℓ} → (A → Bool) → Option A → Bool
holds_of test none = true
holds_of test (some a) = test a

abbrev pub in_order : Option ℕ → Option ℕ → Bool
in_order (some lo) (some hi) = leb lo hi
in_order _ _ = true

-- `len(ids) != len(set(ids))`
abbrev pub repeats : List String → Bool
repeats [] = false
repeats (i ∷ ids) = any (str_eq i) ids || repeats ids

module _ (F : Floats) where
  open F use {Float, of_nat, lt}

  -- The constraints of the fields, and `validate_runtime_range`.
  unfoldable pub check_runtime : GroupRuntime Float → Result (Unit {0})
  check_runtime r = do
    ensure (holds_of (λ n. leb n 100) r.power) value_error
    ensure (holds_of (λ n. leb n 100) r.min_power) value_error
    ensure (holds_of (λ n. leb n 100) r.max_power) value_error
    ensure (holds_of (λ p. lt (of_nat 0) p) r.period_seconds) value_error
    ensure (in_order r.min_power r.max_power) value_error

  unfoldable pub device_ids : List (GroupMember Float) → List String
  device_ids [] = []
  device_ids (m ∷ members) = m.device ∷ device_ids members

  unfoldable pub validate_unique_members : GroupConfig Float → Result (Unit {0})
  unfolding device_ids
  validate_unique_members g = ensure (not (repeats (device_ids g.members))) value_error
