-- ===== src/Mqtt/Service/Desired.antt =====
-- The desired values that mqtt/service.py keeps apart from what it observes.
use jebao_flow_engine.Base.{
  ℕ, ◌+◌, ◌≡◌, refl, sym, ap, subst, ◌∙◌, Bool, true, false, ◌||◌, if◌then◌else◌, Bool-cases,
  Option-cases, inl, inr, Option, none, some, List, [], ◌∷◌, String, str_eq, eq_iff, is_some,
}
use jebao_flow_engine.Base.Dict.{Dict, lookup, insert, lookup-insert, lookup-insert_self}
use jebao_flow_engine.Base.Result.{
  ok, ok-injective, if-cases, >>=-eq-ok, require, require-eq-ok, key_error,
}
use jebao_flow_engine.Config.{AppConfig}
use jebao_flow_engine.Devices.Observer.{ObserverEvent}
use jebao_flow_engine.Floats.{Floats}
use jebao_flow_engine.Groups.{PatternKind}
use jebao_flow_engine.Mqtt.Models.{GroupStatePayload, DeviceStatePayload, DeviceControlMode}
use jebao_flow_engine.Mqtt.Service.{Service, calculate_members}
use jebao_flow_engine.Mqtt.Service.Merge.{Merged, merge_state, merge_loss}
use jebao_flow_engine.Mqtt.Service.Observation.{
  mark_dirty, observed_group, refresh_group_observation, refresh_observations, publish_heartbeat,
  note_published, write_device, refresh_if, mark_groups_if, is_stale, with_revision, record_merged,
  record_observer_event,
}
use jebao_flow_engine.Patterns.Interface.{Calculator}

-- What a client wants of a group, and of a device.
pub record GroupDesire (Float : Type 0) : Type 0 where
  pub enabled : Bool
  pub pattern : PatternKind
  pub power : ℕ
  pub min_power : ℕ
  pub max_power : ℕ
  pub period_seconds : Float
  pub transition_seconds : Float

pub record DeviceDesire : Type 0 where
  pub enabled : Bool
  pub power : ℕ
  pub control_mode : DeviceControlMode

unfoldable pub group_desire : {Float : Type 0} → GroupStatePayload Float → GroupDesire Float
group_desire s = record {
  enabled = s.enabled;
  pattern = s.pattern;
  power = s.power;
  min_power = s.min_power;
  max_power = s.max_power;
  period_seconds = s.period_seconds;
  transition_seconds = s.transition_seconds;
}

unfoldable pub device_desire : DeviceStatePayload → DeviceDesire
device_desire d = record { enabled = d.enabled; power = d.power; control_mode = d.control_mode }

abbrev pub map_option {ℓ κ} : {A : Type ℓ} {B : Type κ} → (A → B) → Option A → Option B
map_option f none = none
map_option f (some a) = some (f a)

-- Both states want the same of each group and of each device, and know the same groups and devices.
pub record SameDesire {Float : Type 0} (s t : Service Float) : Type 0 where
  pub of_groups :
      (id : String)
      → map_option group_desire (lookup id s.states) ≡ map_option group_desire (lookup id t.states)
  pub of_devices :
      (id : String)
      → map_option device_desire (lookup id s.device_states)
        ≡ map_option device_desire (lookup id t.device_states)

-- Writing a value that maps to the same as the one it replaces.
insert-map_option {ℓ κ} :
    {V : Type ℓ} {B : Type κ} (f : V → B) (key id : String) (old new : V) (d : Dict V)
    → lookup key d ≡ some old
    → f new ≡ f old
    → map_option f (lookup id d) ≡ map_option f (lookup id (insert key new d))
insert-map_option f key id old new d known same = elim (Bool-cases (str_eq key id)) [
  | inl e ↦
      subst (λ k. map_option f (lookup k d) ≡ map_option f (lookup k (insert key new d)))
        ((eq_iff key id).0 e)
        (ap (map_option f) known
          ∙ ap some (sym same)
          ∙ ap (map_option f) (sym (lookup-insert_self key new d)))
  | inr e ↦
      ap (map_option f)
        (sym (lookup-insert key id new d ∙ ap (λ b. if b then some new else lookup id d) e))
]

module _ {Float : Type 0} where
  pub SameDesire-refl : (s : Service Float) → SameDesire s s
  SameDesire-refl s = record { of_groups = λ id. refl; of_devices = λ id. refl }

  pub SameDesire-trans : (s t u : Service Float) → SameDesire s t → SameDesire t u → SameDesire s u
  SameDesire-trans s t u h k = record {
    of_groups = λ id. h.of_groups id ∙ k.of_groups id;
    of_devices = λ id. h.of_devices id ∙ k.of_devices id;
  }

revised_desire :
    (n : ℕ) (d : DeviceStatePayload) → device_desire (record d { revision = n }) ≡ device_desire d
unfolding device_desire
revised_desire n d = refl

module _ (F : Floats) (C : Calculator F) (config : AppConfig F.Float) (clock : ℕ → F.Float) where
  open F use {Float}

  refresh_group_observation-SameDesire :
      (now : Float) (group_id : String) (more : Bool) (s t : Service Float)
      → refresh_group_observation F C config clock now group_id more s ≡ ok t
      → SameDesire s t
  unfolding refresh_group_observation observed_group group_desire
  refresh_group_observation-SameDesire now group_id more s t h =
      let (state, known, h1) = >>=-eq-ok (require key_error (lookup group_id s.states)) _ h in
      let (members, _, h2) =
        >>=-eq-ok (calculate_members F C config now s.device_states state) _ h1 in
      let found = require-eq-ok key_error (lookup group_id s.states) known in
      let new = observed_group more members state in
      subst (λ x. SameDesire s x) (ok-injective h2)
        (record {
          of_groups =
              λ id. insert-map_option group_desire group_id id state new s.states found refl;
          of_devices = λ id. refl;
        })

  refresh_observations-SameDesire :
      (tick : ℕ) (group_ids : List String) (more : Bool) (s t : Service Float)
      → refresh_observations F C config clock tick group_ids more s ≡ ok t
      → SameDesire s t
  unfolding refresh_observations
  refresh_observations-SameDesire tick [] more s t h =
      subst (λ x. SameDesire s x) (ok-injective h) (SameDesire-refl s)
  refresh_observations-SameDesire tick (group_id ∷ group_ids) more s t h =
      let (u, first, rest) =
        >>=-eq-ok (refresh_group_observation F C config clock (clock tick) group_id more s) _ h in
      SameDesire-trans s u t
        (refresh_group_observation-SameDesire (clock tick) group_id more s u first)
        (refresh_observations-SameDesire (tick + 1) group_ids more u t rest)

  write_device-SameDesire :
      (device_id : String) (observed_at : Option ℕ) (publish : Bool)
      (current updated : DeviceStatePayload) (s : Service Float)
      → lookup device_id s.device_states ≡ some current
      → device_desire updated ≡ device_desire current
      → SameDesire s (write_device F C config clock device_id observed_at publish updated s)
  unfolding write_device note_published mark_dirty
  write_device-SameDesire device_id observed_at false current updated s known same = record {
    of_groups = λ id. refl;
    of_devices = λ id.
        insert-map_option device_desire device_id id current updated s.device_states known same;
  }
  write_device-SameDesire device_id none true current updated s known same = record {
    of_groups = λ id. refl;
    of_devices = λ id.
        insert-map_option device_desire device_id id current updated s.device_states known same;
  }
  write_device-SameDesire device_id (some at) true current updated s known same = record {
    of_groups = λ id. refl;
    of_devices = λ id.
        insert-map_option device_desire device_id id current updated s.device_states known same;
  }

  refresh_if-SameDesire :
      (test : Bool) (group_ids : List String) (more : Bool) (s t : Service Float)
      → refresh_if F C config clock test group_ids more s ≡ ok t
      → SameDesire s t
  unfolding refresh_if
  refresh_if-SameDesire true group_ids more s t h =
      refresh_observations-SameDesire 0 group_ids more s t h
  refresh_if-SameDesire false group_ids more s t h =
      subst (λ x. SameDesire s x) (ok-injective h) (SameDesire-refl s)

  mark_groups_if-SameDesire :
      (test : Bool) (group_ids : List String) (s : Service Float)
      → SameDesire s (mark_groups_if F C config clock test group_ids s)
  unfolding mark_groups_if mark_dirty
  mark_groups_if-SameDesire true group_ids s = record {
    of_groups = λ id. refl;
    of_devices = λ id. refl;
  }
  mark_groups_if-SameDesire false group_ids s = SameDesire-refl s

  record_merged-SameDesire :
      (device_id : String) (observed_at : Option ℕ) (current : DeviceStatePayload) (m : Merged)
      (s t : Service Float)
      → lookup device_id s.device_states ≡ some current
      → device_desire m.updated ≡ device_desire current
      → record_merged F C config clock device_id observed_at current m s ≡ ok t
      → SameDesire s t
  unfolding record_merged
  record_merged-SameDesire device_id observed_at current m s t known same h =
      let updated = with_revision F C config clock m.semantic_changed current.revision m.updated in
      let (heartbeat, _, h1) =
        >>=-eq-ok (publish_heartbeat F C config clock device_id observed_at s) _ h in
      let publish = m.semantic_changed || heartbeat in
      let written = write_device F C config clock device_id observed_at publish updated s in
      let (refreshed, looped, h2) =
        >>=-eq-ok
          (refresh_if F C config clock (is_some observed_at || m.semantic_changed) updated.group_ids
            m.semantic_changed written)
          _ h1 in
      SameDesire-trans s written t
        (write_device-SameDesire device_id observed_at publish current updated s known
          (revised_desire _ m.updated ∙ same))
        (SameDesire-trans written refreshed t (refresh_if-SameDesire _ _ _ written refreshed looped)
          (subst (λ x. SameDesire refreshed x) (ok-injective h2)
            (mark_groups_if-SameDesire publish updated.group_ids refreshed)))

  -- An observation, successful or not, changes no desired value: every group keeps its enabled flag, pattern, power,
  -- limits, period and transition, and every device its enabled flag, power and control mode.
  pub record_observer_event-SameDesire :
      (event : ObserverEvent) (s t : Service Float)
      → record_observer_event F C config clock event s ≡ ok t
      → SameDesire s t
  unfolding record_observer_event merge_state merge_loss device_desire
  record_observer_event-SameDesire event s t h =
      elim (Option-cases (lookup event.device_id s.device_states)) [
        | inl e ↦
            subst (λ x. SameDesire s x) (ok-injective (rw (record_observer_event, e) at h))
              (SameDesire-refl s)
        | inr (current, known) ↦ elim (Option-cases event.state) [
          | inl e ↦
              record_merged-SameDesire event.device_id none current
                (merge_loss current event.status event.error) s t known refl
                (rw (record_observer_event, known, e) at h)
          | inr (state, e) ↦
              elim (if-cases (is_stale current.last_seen_at state.observed_at) (ok s)
                (record_merged F C config clock event.device_id (some state.observed_at) current
                  (merge_state current state) s)
                (rw (record_observer_event, known, e) at h)) [
                  | inl (_, same) ↦
                      subst (λ x. SameDesire s x) (ok-injective same) (SameDesire-refl s)
                  | inr (_, merged) ↦
                      record_merged-SameDesire event.device_id (some state.observed_at) current
                        (merge_state current state) s t known refl merged
                ]
        ]
      ]
