-- ===== src/Mqtt/Service/Emergency.antt =====
-- Emergency stops in mqtt/service.py: the lock on commands.
use jebao_flow_engine.Base.{
  ℕ, ◌≡◌, sym, ap, ◌∙◌, Bool, true, false, arith, Bool-cases, inl, inr, none, some, List, [], ◌∷◌,
  String, str_eq, eq_iff, any,
}
use mathlib.Core.Option.{none-ne-some}
use jebao_flow_engine.Base.Dict.{Dict, lookup}
use jebao_flow_engine.Base.Result.{
  ok, ok-injective, if-cases, >>=-eq-ok, require, require-eq-ok, key_error,
}
use jebao_flow_engine.Config.{AppConfig, is_observer}
use jebao_flow_engine.Floats.{Floats}
use jebao_flow_engine.Mqtt.Models.{
  GroupCommand, GroupCommandResult, GroupStatePayload, DeviceCommand, DeviceCommandResult,
  DeviceStatePayload,
}
use jebao_flow_engine.Mqtt.Service.{Service, remember, remember_device, is_emergency_stop}
use jebao_flow_engine.Mqtt.Service.Commands.{is_clear, apply}
use jebao_flow_engine.Mqtt.Service.Overrides.{
  reject_device, any_emergency_stop, apply_known_device, apply_device,
}
use jebao_flow_engine.Mqtt.Service.Results.{IsReplayed, IsRejected, IsApplied, apply-cases}
use jebao_flow_engine.Patterns.{or_default}
use jebao_flow_engine.Patterns.Interface.{Calculator}

module _ (F : Floats) (C : Calculator F) (config : AppConfig F.Float) (clock : ℕ → F.Float) where
  open F use {Float}

  -- While a group is in emergency stop, `apply` accepts no new command for it but one that clears the stop: any other
  -- is rejected, and no state of a group or of a device changes.
  pub apply-emergency_stop :
      (group_id : String) (c : GroupCommand Float) (s t : Service Float) (r : GroupCommandResult)
      (state : GroupStatePayload Float)
      → apply F C config clock group_id c s ≡ ok (t, r)
      → lookup c.request_id s.results ≡ none
      → lookup group_id s.states ≡ some state
      → is_emergency_stop state.status ≡ true
      → is_clear c.action ≡ false
      → (r.accepted ≡ false) × (t.states ≡ s.states) × (t.device_states ≡ s.device_states)
  unfolding IsReplayed IsRejected IsApplied remember
  apply-emergency_stop group_id c s t r state h fresh known stopped kept =
      elim (apply-cases F C config clock group_id c s t r h) [
        | inl (found, _) ↦ absurd (none-ne-some r (sym fresh ∙ found))
        | inr (inl (same, _, rejected)) ↦
            (rejected, ap (λ x. x.states) same, ap (λ x. x.device_states) same)
        | inr (inr (current, now, _, lock, _, _, _)) ↦
            let is_same = ap (or_default state) (sym known ∙ now) in
            let still = sym (ap (λ x. is_emergency_stop x.status) is_same) ∙ stopped in
            ground (arith, lock, still, kept)
      ]

  any_emergency_stop-true :
      (group_ids : List String) (group_id : String) (states : Dict (GroupStatePayload Float))
      (state : GroupStatePayload Float) (locked : Bool)
      → any_emergency_stop F C config clock group_ids states ≡ ok locked
      → any (str_eq group_id) group_ids ≡ true
      → lookup group_id states ≡ some state
      → is_emergency_stop state.status ≡ true
      → locked ≡ true
  unfolding any_emergency_stop
  any_emergency_stop-true [] group_id states state locked h mem known stopped = cc
  any_emergency_stop-true (g ∷ group_ids) group_id states state locked h mem known stopped =
      let (current, found, rest) = >>=-eq-ok (require key_error (lookup g states)) _ h in
      let now = require-eq-ok key_error _ found in
      elim (Bool-cases (is_emergency_stop current.status)) [
        | inl e ↦ sym (ok-injective (rw e at rest))
        | inr e ↦ elim (Bool-cases (str_eq group_id g)) [
          | inl same ↦
              let is_same =
                ap (or_default state)
                  (sym known ∙ ap (λ x. lookup x states) ((eq_iff group_id g).0 same) ∙ now) in
              let here = sym (ap (λ x. is_emergency_stop x.status) is_same) ∙ stopped in cc
          | inr other ↦
              any_emergency_stop-true group_ids group_id states state locked (rw e at rest)
                (rw other at mem) known stopped
        ]
      ]

  pub reject_device-eq_ok :
      (device_id : String) (revision : ℕ) (c : DeviceCommand) (reason : String)
      (s t : Service Float) (r : DeviceCommandResult)
      → ok (reject_device device_id revision c reason s) ≡ ok (t, r)
      → (r.accepted ≡ false) × (t.states ≡ s.states) × (t.device_states ≡ s.device_states)
  unfolding reject_device remember_device
  reject_device-eq_ok device_id revision c reason s t r h =
      let same = ok-injective h in
      (
        sym (ap (λ p. p.1.accepted) same),
        sym (ap (λ p. p.0.states) same),
        sym (ap (λ p. p.0.device_states) same),
      )

  -- While one of a device's groups is in emergency stop, `apply_device` accepts no new command for the device: each is
  -- rejected, and no state of a group or of a device changes.
  pub apply_device-emergency_stop :
      (device_id group_id : String) (c : DeviceCommand) (s t : Service Float)
      (r : DeviceCommandResult) (device : DeviceStatePayload) (state : GroupStatePayload Float)
      → apply_device F C config clock device_id c s ≡ ok (t, r)
      → lookup c.request_id s.device_results ≡ none
      → lookup device_id s.device_states ≡ some device
      → any (str_eq group_id) device.group_ids ≡ true
      → lookup group_id s.states ≡ some state
      → is_emergency_stop state.status ≡ true
      → (r.accepted ≡ false) × (t.states ≡ s.states) × (t.device_states ≡ s.device_states)
  unfolding apply_device apply_known_device
  apply_device-emergency_stop device_id group_id c s t r device state h fresh known mem found
        stopped =
      elim (if-cases (is_observer config.runtime.mode) _ _ (rw (apply_device, fresh, known) at h)) [
        | inl (_, a) ↦ reject_device-eq_ok _ _ c _ s t r a
        | inr (_, a) ↦
            let (locked, e, rest) =
              >>=-eq-ok (any_emergency_stop F C config clock device.group_ids s.states) _ a in
            let is_locked =
              any_emergency_stop-true device.group_ids group_id s.states state locked e mem found
                stopped in
            reject_device-eq_ok _ _ c _ s t r (rw is_locked at rest)
      ]
