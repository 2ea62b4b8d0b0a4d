-- ===== src/Mqtt/Service/Steps.antt =====
-- Runs of mqtt/service.py as sequences of its operations, and what holds along them.
use jebao_flow_engine.Base.{
  ℕ, ◌≡◌, refl, sym, ap, subst, ◌∙◌, true, Option-cases, inl, inr, none, some, String,
}
use mathlib.Core.Bool.{true≢false}
use mathlib.Core.Option.{none-ne-some}
use jebao_flow_engine.Base.Dict.{lookup}
use jebao_flow_engine.Base.Result.{ok, ok-injective, if-cases}
use jebao_flow_engine.Config.{AppConfig, is_observer}
use jebao_flow_engine.Devices.Observer.{ObserverEvent}
use jebao_flow_engine.Floats.{Floats}
use jebao_flow_engine.Mqtt.Models.{
  GroupCommand, GroupCommandResult, DeviceCommand, DeviceCommandResult,
}
use jebao_flow_engine.Mqtt.Service.{Service, remember, remember_device}
use jebao_flow_engine.Mqtt.Service.Commands.{apply}
use jebao_flow_engine.Mqtt.Service.Overrides.{reject_device, apply_known_device, apply_device}
use jebao_flow_engine.Mqtt.Service.Desired.{
  SameDesire, SameDesire-refl, SameDesire-trans, record_observer_event-SameDesire,
}
use jebao_flow_engine.Mqtt.Service.Observation.{
  StateUpdate, record_observer_event, wait_for_updates,
}
use jebao_flow_engine.Mqtt.Service.Results.{IsReplayed, IsRejected, IsApplied, apply-cases}
use jebao_flow_engine.Patterns.{or_default}
use jebao_flow_engine.Patterns.Interface.{Calculator}

module _ (F : Floats) (C : Calculator F) (config : AppConfig F.Float) where
  open F use {Float}

  -- One operation that does not raise; the clock may read anything.
  pub data Step : Service Float → Service Float → Type 0 where
    applied :
        {s t : Service Float} (clock : ℕ → Float) (group_id : String) (c : GroupCommand Float)
        (r : GroupCommandResult)
        → apply F C config clock group_id c s ≡ ok (t, r)
        → Step s t
    device_applied :
        {s t : Service Float} (clock : ℕ → Float) (device_id : String) (c : DeviceCommand)
        (r : DeviceCommandResult)
        → apply_device F C config clock device_id c s ≡ ok (t, r)
        → Step s t
    observed :
        {s t : Service Float} (clock : ℕ → Float) (event : ObserverEvent)
        → record_observer_event F C config clock event s ≡ ok t
        → Step s t
    awaited : {s t : Service Float} (u : StateUpdate) → wait_for_updates s ≡ some (u, t) → Step s t

  pub data Reaches : Service Float → Service Float → Type 0 where
    stay : {s : Service Float} → Reaches s s
    go : {s t u : Service Float} → Step s t → Reaches t u → Reaches s u

  apply-observer :
      (clock : ℕ → Float) (group_id : String) (c : GroupCommand Float) (s t : Service Float)
      (r : GroupCommandResult)
      → is_observer config.runtime.mode ≡ true
      → apply F C config clock group_id c s ≡ ok (t, r)
      → SameDesire s t
  unfolding IsReplayed IsRejected IsApplied remember
  apply-observer clock group_id c s t r mode h =
      elim (apply-cases F C config clock group_id c s t r h) [
        | inl (_, same) ↦ subst (λ x. SameDesire s x) (sym same) (SameDesire-refl s)
        | inr (inl (same, _, _)) ↦
            subst (λ x. SameDesire s x) (sym same)
              (record { of_groups = λ id. refl; of_devices = λ id. refl })
        | inr (inr (_, _, other, _, _, _, _)) ↦ absurd (true≢false (sym mode ∙ other))
      ]

  reject_device-SameDesire :
      (clock : ℕ → Float) (device_id : String) (revision : ℕ) (c : DeviceCommand) (reason : String)
      (s t : Service Float) (r : DeviceCommandResult)
      → ok (reject_device device_id revision c reason s) ≡ ok (t, r)
      → SameDesire s t
  unfolding reject_device remember_device
  reject_device-SameDesire clock device_id revision c reason s t r h =
      subst (λ p. SameDesire s p.0) (ok-injective h)
        (record { of_groups = λ id. refl; of_devices = λ id. refl })

  apply_device-observer :
      (clock : ℕ → Float) (device_id : String) (c : DeviceCommand) (s t : Service Float)
      (r : DeviceCommandResult)
      → is_observer config.runtime.mode ≡ true
      → apply_device F C config clock device_id c s ≡ ok (t, r)
      → SameDesire s t
  unfolding apply_device apply_known_device
  apply_device-observer clock device_id c s t r mode h =
      elim (Option-cases (lookup c.request_id s.device_results)) [
        | inr (previous, e) ↦
            subst (λ p. SameDesire s p.0) (ok-injective (rw (apply_device, e) at h))
              (SameDesire-refl s)
        | inl fresh ↦ elim (Option-cases (lookup device_id s.device_states)) [
          | inl e ↦ reject_device-SameDesire clock _ _ c _ s t r (rw (apply_device, fresh, e) at h)
          | inr (current, e) ↦
              reject_device-SameDesire clock _ _ c _ s t r
                (rw (apply_device, fresh, e, apply_known_device, mode) at h)
        ]
      ]

  wait_for_updates-SameDesire :
      (s t : Service Float) (u : StateUpdate) → wait_for_updates s ≡ some (u, t) → SameDesire s t
  unfolding wait_for_updates
  wait_for_updates-SameDesire s t u h = elim (if-cases s.is_update_event_set _ none h) [
    | inl (_, e) ↦
        subst (λ x. SameDesire s x)
          (ap (λ o. (or_default {A = StateUpdate × Service Float} (u, s) o).1) e)
          (record { of_groups = λ id. refl; of_devices = λ id. refl })
    | inr (_, e) ↦ absurd (none-ne-some (u, t) e)
  ]

  Step-observer :
      (s t : Service Float) → is_observer config.runtime.mode ≡ true → Step s t → SameDesire s t
  Step-observer s t mode (applied clock group_id c r h) =
      apply-observer clock group_id c s t r mode h
  Step-observer s t mode (device_applied clock device_id c r h) =
      apply_device-observer clock device_id c s t r mode h
  Step-observer s t mode (observed clock event h) =
      record_observer_event-SameDesire F C config clock event s t h
  Step-observer s t mode (awaited u h) = wait_for_updates-SameDesire s t u h

  -- In observer mode no run of commands, observations and updates, in whatever order, changes a desired value: every
  -- group keeps its enabled flag, pattern, power, limits, period and transition, and every device its enabled flag,
  -- power and control mode.
  pub Reaches-SameDesire :
      (s t : Service Float) → is_observer config.runtime.mode ≡ true → Reaches s t → SameDesire s t
  Reaches-SameDesire s t mode stay = SameDesire-refl s
  Reaches-SameDesire s t mode (go {t = u} step rest) =
      SameDesire-trans s u t (Step-observer s u mode step) (Reaches-SameDesire u t mode rest)
