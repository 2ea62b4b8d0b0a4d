-- ===== src/Mqtt/Service/KeyedRuns.antt =====
-- The keys of the group states of mqtt/service.py along whole runs.
use jebao_flow_engine.Base.{
  ℕ, ◌+◌, ◌≡◌, sym, ap, subst, true, not, ◌&&◌, leb, Bool-cases, Option-cases, inl, inr, none, some,
  List, [], ◌∷◌, String, str_eq, any, is_some, get_elem?,
}
use mathlib.Core.Option.{none-ne-some}
use jebao_flow_engine.Base.Dict.{lookup, insert}
use jebao_flow_engine.Base.Result.{
  ok, ok-injective, if-cases, >>=-eq-ok, require, key_error, index_error,
}
use jebao_flow_engine.Config.{AppConfig, is_observer}
use jebao_flow_engine.Floats.{Floats}
use jebao_flow_engine.Groups.{holds_of}
use jebao_flow_engine.Mqtt.Models.{DeviceCommand, DeviceCommandResult, DeviceStatePayload}
use jebao_flow_engine.Mqtt.Service.{
  Service, set_device_states, remember_device, device_config, calculate_targets,
  refresh_group_members,
}
use jebao_flow_engine.Mqtt.Service.Emergency.{reject_device-eq_ok}
use jebao_flow_engine.Mqtt.Service.Keys.{
  IsKeyed, apply-IsKeyed, refresh_group_members-IsKeyed, record_observer_event-IsKeyed,
  start-IsKeyed,
}
use jebao_flow_engine.Mqtt.Service.Observation.{StateUpdate, wait_for_updates}
use jebao_flow_engine.Mqtt.Service.Overrides.{
  reject_device, accept_device, any_emergency_stop, device_controls, refresh_groups,
  apply_device_change, resume_device, override, apply_unlocked_device, apply_known_device,
  apply_device,
}
use jebao_flow_engine.Mqtt.Service.Startup.{start}
use jebao_flow_engine.Mqtt.Service.Steps.{
  Step, Reaches, applied, device_applied, observed, awaited, stay, go,
}
use jebao_flow_engine.Patterns.{or_default}
use jebao_flow_engine.Patterns.Interface.{Calculator}

module _ (F : Floats) (C : Calculator F) (config : AppConfig F.Float) (clock : ℕ → F.Float) where
  open F use {Float}

  refresh_groups-IsKeyed :
      (tick : ℕ) (group_ids : List String) (s t : Service Float)
      → refresh_groups F C config clock tick group_ids s ≡ ok t
      → IsKeyed s.states
      → IsKeyed t.states
  unfolding refresh_groups
  refresh_groups-IsKeyed tick [] s t h keyed = subst (λ x. IsKeyed x.states) (ok-injective h) keyed
  refresh_groups-IsKeyed tick (g ∷ group_ids) s t h keyed =
      let (u, first, rest) =
        >>=-eq-ok (refresh_group_members F C config (clock tick) g true s) _ h in
      refresh_groups-IsKeyed (tick + 1) group_ids u t rest
        (refresh_group_members-IsKeyed F C config clock (clock tick) g true s u first keyed)

  apply_device_change-IsKeyed :
      (device_id : String) (c : DeviceCommand) (updated : DeviceStatePayload) (s t : Service Float)
      (r : DeviceCommandResult)
      → apply_device_change F C config clock device_id c updated s ≡ ok (t, r)
      → IsKeyed s.states
      → IsKeyed t.states
  unfolding apply_device_change accept_device remember_device
  apply_device_change-IsKeyed device_id c updated s t r h keyed =
      let (refreshed, looped, rest) =
        >>=-eq-ok
          (refresh_groups F C config clock 1 updated.group_ids
            (set_device_states (insert device_id updated s.device_states) s))
          _ h in
      subst (λ p. IsKeyed p.0.states) (ok-injective rest)
        (refresh_groups-IsKeyed 1 updated.group_ids _ refreshed looped keyed)

  resume_device-IsKeyed :
      (device_id : String) (c : DeviceCommand) (current : DeviceStatePayload) (s t : Service Float)
      (r : DeviceCommandResult)
      → resume_device F C config clock device_id c current s ≡ ok (t, r)
      → IsKeyed s.states
      → IsKeyed t.states
  unfolding resume_device
  resume_device-IsKeyed device_id c current s t r h keyed =
      let (group_id, _, h1) = >>=-eq-ok (require index_error (get_elem? current.group_ids 0)) _ h in
      let (state, _, h2) = >>=-eq-ok (require key_error (lookup group_id s.states)) _ h1 in
      let (targets, _, h3) = >>=-eq-ok (calculate_targets F C config (clock 0) state) _ h2 in
      let (target, _, h4) = >>=-eq-ok (require key_error (lookup device_id targets)) _ h3 in
      apply_device_change-IsKeyed device_id c _ s t r h4 keyed

  rejected-IsKeyed :
      (device_id : String) (revision : ℕ) (c : DeviceCommand) (reason : String)
      (s t : Service Float) (r : DeviceCommandResult)
      → ok (reject_device device_id revision c reason s) ≡ ok (t, r)
      → IsKeyed s.states
      → IsKeyed t.states
  rejected-IsKeyed device_id revision c reason s t r h keyed =
      let (_, same, _) = reject_device-eq_ok F C config clock device_id revision c reason s t r h in
      subst (λ d. IsKeyed d) (sym same) keyed

  apply_unlocked_device-IsKeyed :
      (device_id : String) (c : DeviceCommand) (current : DeviceStatePayload) (s t : Service Float)
      (r : DeviceCommandResult)
      → apply_unlocked_device F C config clock device_id c current s ≡ ok (t, r)
      → IsKeyed s.states
      → IsKeyed t.states
  unfolding apply_unlocked_device
  apply_unlocked_device-IsKeyed device_id c current s t r h keyed =
      let (controls, _, h1) = >>=-eq-ok (device_controls F C config clock device_id) _ h in
      let (device, _, h2) = >>=-eq-ok (device_config F C config device_id) _ h1 in
      elim (Bool-cases (is_some c.action)) [
        | inl resumes ↦
            elim (if-cases (not (any (str_eq "resume_group") controls)) _ _ (rw resumes at h2)) [
              | inl (_, a) ↦ rejected-IsKeyed _ _ c _ s t r a keyed
              | inr (_, a) ↦ resume_device-IsKeyed device_id c current s t r a keyed
            ]
        | inr sets ↦
            elim (if-cases (is_some c.enabled && not (any (str_eq "enabled") controls)) _ _
              (rw sets at h2)) [
                | inl (_, a) ↦ rejected-IsKeyed _ _ c _ s t r a keyed
                | inr (_, h4) ↦
                    elim (if-cases (is_some c.power && not (any (str_eq "power") controls)) _ _
                      h4) [
                        | inl (_, a) ↦ rejected-IsKeyed _ _ c _ s t r a keyed
                        | inr (_, h5) ↦
                            elim (if-cases
                              (not (
                                holds_of
                                  (λ n.
                                    leb device.limits.min_power n && leb n device.limits.max_power)
                                  c.power))
                              _ _ h5) [
                                | inl (_, a) ↦ rejected-IsKeyed _ _ c _ s t r a keyed
                                | inr (_, done) ↦
                                    apply_device_change-IsKeyed device_id c
                                      (override F C config clock c current) s t r done keyed
                              ]
                      ]
              ]
      ]

  apply_device-IsKeyed :
      (device_id : String) (c : DeviceCommand) (s t : Service Float) (r : DeviceCommandResult)
      → apply_device F C config clock device_id c s ≡ ok (t, r)
      → IsKeyed s.states
      → IsKeyed t.states
  unfolding apply_device apply_known_device
  apply_device-IsKeyed device_id c s t r h keyed =
      elim (Option-cases (lookup c.request_id s.device_results)) [
        | inr (previous, e) ↦
            subst (λ p. IsKeyed p.0.states) (ok-injective (rw (apply_device, e) at h)) keyed
        | inl fresh ↦ elim (Option-cases (lookup device_id s.device_states)) [
          | inl e ↦ rejected-IsKeyed _ _ c _ s t r (rw (apply_device, fresh, e) at h) keyed
          | inr (current, e) ↦
              elim (if-cases (is_observer config.runtime.mode) _ _
                (rw (apply_device, fresh, e) at h)) [
                  | inl (_, a) ↦ rejected-IsKeyed _ _ c _ s t r a keyed
                  | inr (_, h1) ↦
                      let (locked, _, h2) =
                        >>=-eq-ok (any_emergency_stop F C config clock current.group_ids s.states) _
                          h1 in
                      elim (if-cases locked _ _ h2) [
                        | inl (_, a) ↦ rejected-IsKeyed _ _ c _ s t r a keyed
                        | inr (_, done) ↦
                            apply_unlocked_device-IsKeyed device_id c current s t r done keyed
                      ]
                ]
        ]
      ]

wait_for_updates-IsKeyed :
    {Float : Type 0} (s t : Service Float) (u : StateUpdate)
    → wait_for_updates s ≡ some (u, t)
    → IsKeyed s.states
    → IsKeyed t.states
unfolding wait_for_updates
wait_for_updates-IsKeyed {Float} s t u h keyed = elim (if-cases s.is_update_event_set _ none h) [
  | inl (_, e) ↦
      subst (λ x. IsKeyed x.states)
        (ap (λ o. (or_default {A = StateUpdate × Service Float} (u, s) o).1) e) keyed
  | inr (_, e) ↦ absurd (none-ne-some (u, t) e)
]

module _ (F : Floats) (C : Calculator F) (config : AppConfig F.Float) where
  open F use {Float}

  Step-IsKeyed : (s t : Service Float) → Step F C config s t → IsKeyed s.states → IsKeyed t.states
  Step-IsKeyed s t (applied clock group_id c r h) keyed =
      apply-IsKeyed F C config clock group_id c s t r h keyed
  Step-IsKeyed s t (device_applied clock device_id c r h) keyed =
      apply_device-IsKeyed F C config clock device_id c s t r h keyed
  Step-IsKeyed s t (observed clock event h) keyed =
      record_observer_event-IsKeyed F C config clock event s t h keyed
  Step-IsKeyed s t (awaited u h) keyed = wait_for_updates-IsKeyed s t u h keyed

  Reaches-keeps_keys :
      (s t : Service Float) → Reaches F C config s t → IsKeyed s.states → IsKeyed t.states
  Reaches-keeps_keys s t stay keyed = keyed
  Reaches-keeps_keys s t (go {t = u} step rest) keyed =
      Reaches-keeps_keys u t rest (Step-IsKeyed s u step keyed)

  -- Whatever commands, observations and updates follow the construction of the service, each group state stands under
  -- the id of its own group.
  pub Reaches-IsKeyed :
      (clock : ℕ → Float) (s t : Service Float)
      → start F C config clock ≡ ok s
      → Reaches F C config s t
      → IsKeyed t.states
  Reaches-IsKeyed clock s t started run =
      Reaches-keeps_keys s t run (start-IsKeyed F C config clock s started)
