-- ===== src/Mqtt/Service/DeviceLimits.antt =====
-- What an accepted command for one device does in mqtt/service.py.
use mathlib.Core.Bool.{false≢true}
use jebao_flow_engine.Base.{
  ℕ, ◌+◌, ◌≤◌, ◌≡◌, ◌≢◌, refl, sym, ap, ◌∙◌, ◌⊎◌, Bool, Option, true, false, not, if◌then◌else◌,
  ◌&&◌, leb, arith, Option-cases, inl, inr, none, some, List, [], ◌∷◌, String, str_eq, any, is_some,
}
use jebao_flow_engine.Base.Dict.{lookup, insert, lookup-insert_self}
use jebao_flow_engine.Base.Result.{ok, ok-injective, if-cases, >>=-eq-ok}
use jebao_flow_engine.Config.{AppConfig, DeviceConfig, is_observer}
use jebao_flow_engine.Floats.{Floats}
use jebao_flow_engine.Groups.{holds_of}
use jebao_flow_engine.Mqtt.Models.{
  DeviceCommand, DeviceCommandResult, DeviceControlMode, DeviceStatePayload, manual_override,
}
use jebao_flow_engine.Mqtt.Service.{
  Service, set_device_states, remember_device, device_config, refresh_group_members,
}
use jebao_flow_engine.Mqtt.Service.Changes.{refresh_group_members-eq_ok}
use jebao_flow_engine.Mqtt.Service.Emergency.{reject_device-eq_ok}
use jebao_flow_engine.Mqtt.Service.Overrides.{
  accept_device, any_emergency_stop, device_controls, refresh_groups, apply_device_change, override,
  apply_unlocked_device, apply_known_device, apply_device, is_empty,
}
use jebao_flow_engine.Patterns.{or_default}
use jebao_flow_engine.Patterns.Interface.{Calculator}

within :
    (power lo hi : ℕ) → not (leb lo power && leb power hi) ≡ false → (lo ≤ power) × (power ≤ hi)
within power lo hi h = ground arith

module _ (F : Floats) (C : Calculator F) (config : AppConfig F.Float) (clock : ℕ → F.Float) where
  open F use {Float}

  refresh_groups-device_states :
      (tick : ℕ) (group_ids : List String) (s t : Service Float)
      → refresh_groups F C config clock tick group_ids s ≡ ok t
      → t.device_states ≡ s.device_states
  unfolding refresh_groups
  refresh_groups-device_states tick [] s t h = sym (ap (λ x. x.device_states) (ok-injective h))
  refresh_groups-device_states tick (group_id ∷ group_ids) s t h =
      let (u, first, rest) =
        >>=-eq-ok (refresh_group_members F C config (clock tick) group_id true s) _ h in
      let (_, _, _, same) =
        refresh_group_members-eq_ok F C config clock (clock tick) group_id true s u first in
      refresh_groups-device_states (tick + 1) group_ids u t rest ∙ ap (λ x. x.device_states) same

  -- The device's new state is stored, and its revision is the result's.
  unfoldable pub IsStored :
      String → DeviceStatePayload → Service Float → DeviceCommandResult → Type 0
  IsStored device_id updated t r =
      (lookup device_id t.device_states ≡ some updated) × (r.revision ≡ updated.revision)

  apply_device_change-IsStored :
      (device_id : String) (c : DeviceCommand) (updated : DeviceStatePayload) (s t : Service Float)
      (r : DeviceCommandResult)
      → apply_device_change F C config clock device_id c updated s ≡ ok (t, r)
      → IsStored device_id updated t r
  unfolding apply_device_change accept_device remember_device IsStored
  apply_device_change-IsStored device_id c updated s t r h =
      let (refreshed, looped, rest) =
        >>=-eq-ok
          (refresh_groups F C config clock 1 updated.group_ids
            (set_device_states (insert device_id updated s.device_states) s))
          _ h in
      let same = ok-injective rest in
      (
        ap (λ p. lookup device_id p.0.device_states) (sym same)
            ∙ ap (lookup device_id)
                (refresh_groups-device_states 1 updated.group_ids _ refreshed looped)
            ∙ lookup-insert_self device_id updated s.device_states,
        ap (λ p. p.1.revision) (sym same),
      )

  absurd_rejected :
      {P : Type 0} (s t : Service Float) (r : DeviceCommandResult)
      → r.accepted ≡ true
      → (r.accepted ≡ false) × (t.states ≡ s.states) × (t.device_states ≡ s.device_states)
      → P
  absurd_rejected s t r accepted rejected = absurd (false≢true (sym rejected.0 ∙ accepted))

  -- The control mode and the status of a device with these groups, behind a command that leaves its flag `on`.
  abbrev IsControlled : List String → DeviceControlMode → DeviceControlMode → Bool → String → Type 0
  IsControlled ids old new on status =
      ((ids ≡ [])
        × (new ≡ old)
        × (((on ≡ true) × (status ≡ "running")) ⊎ ((on ≡ false) × (status ≡ "stopped"))))
      ⊎ ((ids ≢ []) × (new ≡ manual_override) × (status ≡ "manual_override"))

  -- A device's state after a command: the command's flag and power, where it has them, or the ones before, under a
  -- manual override where the device is in a group. Everything else stays.
  pub record IsAsked (c : DeviceCommand) (before after : DeviceStatePayload) : Type 0 where
    pub revision : after.revision ≡ before.revision + 1
    pub last_request_id : after.last_request_id ≡ some c.request_id
    pub enabled :
        ((c.enabled ≡ none) × (after.enabled ≡ before.enabled)) ⊎ (c.enabled ≡ some after.enabled)
    pub power : ((c.power ≡ none) × (after.power ≡ before.power)) ⊎ (c.power ≡ some after.power)
    pub mode :
        IsControlled before.group_ids before.control_mode after.control_mode after.enabled
          after.status
    pub group_ids : after.group_ids ≡ before.group_ids
    pub hardware_writes_locked : after.hardware_writes_locked ≡ before.hardware_writes_locked
    pub actual_enabled : after.actual_enabled ≡ before.actual_enabled
    pub actual_power : after.actual_power ≡ before.actual_power
    pub actual_mode : after.actual_mode ≡ before.actual_mode
    pub actual_frequency : after.actual_frequency ≡ before.actual_frequency
    pub online : after.online ≡ before.online
    pub error : after.error ≡ before.error
    pub last_seen_at : after.last_seen_at ≡ before.last_seen_at
    pub device_id : after.device_id ≡ before.device_id
    pub name : after.name ≡ before.name
    pub type : after.type ≡ before.type
    pub last_changed_at : after.last_changed_at ≡ before.last_changed_at
    pub last_configuration_changed_at :
        after.last_configuration_changed_at ≡ before.last_configuration_changed_at
    pub observed_attributes : after.observed_attributes ≡ before.observed_attributes
    pub schedule : after.schedule ≡ before.schedule
    pub observation_source : after.observation_source ≡ before.observation_source
    pub change_source : after.change_source ≡ before.change_source

  asked_value :
      {A : Type 0} (old : A) (wanted : Option A)
      → ((wanted ≡ none) × (or_default old wanted ≡ old)) ⊎ (wanted ≡ some (or_default old wanted))
  asked_value old none = inl (refl, refl)
  asked_value old (some a) = inr refl

  cons_ne_nil : {A : Type 0} (a : A) (items : List A) → (a ∷ items) ≢ []
  cons_ne_nil a items h = cc

  overridden_mode :
      (ids : List String) (mode : DeviceControlMode) (on : Bool)
      → IsControlled ids mode
          (if is_empty ids then mode else manual_override)
          on
          (if is_empty ids then (if on then "running" else "stopped") else "manual_override")
  overridden_mode [] mode true = inl (refl, refl, inl (refl, refl))
  overridden_mode [] mode false = inl (refl, refl, inr (refl, refl))
  overridden_mode (id ∷ ids) mode on = inr (cons_ne_nil id ids, refl, refl)

  override-IsAsked :
      (c : DeviceCommand) (before : DeviceStatePayload)
      → IsAsked c before (override F C config clock c before)
  unfolding override
  override-IsAsked c before = record {
    revision = refl;
    last_request_id = refl;
    enabled = asked_value before.enabled c.enabled;
    power = asked_value before.power c.power;
    mode =
        overridden_mode before.group_ids before.control_mode (or_default before.enabled c.enabled);
    group_ids = refl;
    hardware_writes_locked = refl;
    actual_enabled = refl;
    actual_power = refl;
    actual_mode = refl;
    actual_frequency = refl;
    online = refl;
    error = refl;
    last_seen_at = refl;
    device_id = refl;
    name = refl;
    type = refl;
    last_changed_at = refl;
    last_configuration_changed_at = refl;
    observed_attributes = refl;
    schedule = refl;
    observation_source = refl;
    change_source = refl;
  }

  -- The outcome of an accepted command that carries no action.
  unfoldable pub IsOverridden :
      String → DeviceCommand → DeviceStatePayload → Service Float → DeviceCommandResult → Type 0
  unfolding IsStored
  IsOverridden device_id c before t r =
      (device : DeviceConfig) × (device_config F C config device_id ≡ ok device)
      × ((power : ℕ)
          → c.power ≡ some power
          → (device.limits.min_power ≤ power) × (power ≤ device.limits.max_power))
      × (state : DeviceStatePayload) × IsStored device_id state t r
      × IsAsked c before state

  apply_unlocked_device-IsOverridden :
      (device_id : String) (c : DeviceCommand) (current : DeviceStatePayload) (s t : Service Float)
      (r : DeviceCommandResult)
      → apply_unlocked_device F C config clock device_id c current s ≡ ok (t, r)
      → r.accepted ≡ true
      → c.action ≡ none
      → IsOverridden device_id c current t r
  unfolding apply_unlocked_device IsOverridden
  apply_unlocked_device-IsOverridden device_id c current s t r h accepted plain =
      let (controls, _, h1) = >>=-eq-ok (device_controls F C config clock device_id) _ h in
      let (device, is_device, h2) = >>=-eq-ok (device_config F C config device_id) _ h1 in
      let h3 = rw plain at h2 in
      elim (if-cases (is_some c.enabled && not (any (str_eq "enabled") controls)) _ _ h3) [
        | inl (_, a) ↦
            absurd_rejected s t r accepted (reject_device-eq_ok F C config clock _ _ c _ s t r a)
        | inr (_, h4) ↦
            elim (if-cases (is_some c.power && not (any (str_eq "power") controls)) _ _ h4) [
              | inl (_, a) ↦
                  absurd_rejected s t r accepted
                    (reject_device-eq_ok F C config clock _ _ c _ s t r a)
              | inr (_, h5) ↦
                  elim (if-cases
                    (not (
                      holds_of (λ n. leb device.limits.min_power n && leb n device.limits.max_power)
                        c.power))
                    _ _ h5) [
                      | inl (_, a) ↦
                          absurd_rejected s t r accepted
                            (reject_device-eq_ok F C config clock _ _ c _ s t r a)
                      | inr (fits, done) ↦ (
                        device,
                        is_device,
                        λ power e.
                            within power device.limits.min_power device.limits.max_power
                              (rw e at fits),
                        override F C config clock c current,
                        (apply_device_change-IsStored device_id c
                            (override F C config clock c current) s t r done),
                        override-IsAsked c current,
                      )
                    ]
            ]
      ]

  -- A command without an action that `apply_device` newly accepts comes in control mode and asks for no power outside
  -- the device's configured limits. It leaves the device with the flag and the power that it asks for, or the ones
  -- before where it asks for none, with a revision one higher, which is the result's, and with its request id. A
  -- device in a group is then under a manual override; one in no group keeps its control mode, and its status follows its
  -- flag. Everything else of its state stays.
  pub apply_device-IsOverridden :
      (device_id : String) (c : DeviceCommand) (s t : Service Float) (r : DeviceCommandResult)
      → apply_device F C config clock device_id c s ≡ ok (t, r)
      → lookup c.request_id s.device_results ≡ none
      → r.accepted ≡ true
      → c.action ≡ none
      → (before : DeviceStatePayload) × (lookup device_id s.device_states ≡ some before)
        × (is_observer config.runtime.mode ≡ false)
        × IsOverridden device_id c before t r
  unfolding apply_device apply_known_device
  apply_device-IsOverridden device_id c s t r h fresh accepted plain =
      elim (Option-cases (lookup device_id s.device_states)) [
        | inl e ↦
            absurd_rejected s t r accepted (
              reject_device-eq_ok F C config clock _ _ c _ s t r (rw (apply_device, fresh, e) at h))
        | inr (current, e) ↦
            elim (if-cases (is_observer config.runtime.mode) _ _
              (rw (apply_device, fresh, e) at h)) [
                | inl (_, a) ↦
                    absurd_rejected s t r accepted
                      (reject_device-eq_ok F C config clock _ _ c _ s t r a)
                | inr (mode, h1) ↦
                    let (locked, _, h2) =
                      >>=-eq-ok (any_emergency_stop F C config clock current.group_ids s.states) _
                        h1 in
                    elim (if-cases locked _ _ h2) [
                      | inl (_, a) ↦
                          absurd_rejected s t r accepted
                            (reject_device-eq_ok F C config clock _ _ c _ s t r a)
                      | inr (_, done) ↦ (
                        current,
                        e,
                        mode,
                        apply_unlocked_device-IsOverridden device_id c current s t r done accepted
                            plain,
                      )
                    ]
              ]
      ]
