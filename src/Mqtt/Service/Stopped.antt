-- ===== src/Mqtt/Service/Stopped.antt =====
-- What an accepted emergency stop of mqtt/service.py leaves of the group's devices.
use jebao_flow_engine.Base.{
  ℕ, ◌≡◌, refl, sym, ap, subst, ◌∙◌, Bool, true, false, ◌&&◌, ◌||◌, arith, if◌then◌else◌,
  Bool-cases, Option-cases, ◌⊎◌, inl, inr, none, some, List, [], ◌∷◌, String, str_eq, eq_iff,
  is_some, All,
}
use mathlib.Core.Bool.{false≢true}
use mathlib.Core.Option.{none-ne-some}
use jebao_flow_engine.Base.Dict.{
  Dict, lookup, insert, lookup-nil, lookup-insert, lookup-insert_self,
}
use jebao_flow_engine.Base.Result.{ok, ok-injective, >>=-eq-ok, require, require-eq-ok, key_error}
use jebao_flow_engine.Config.{AppConfig}
use jebao_flow_engine.Floats.{Floats}
use jebao_flow_engine.Groups.{GroupConfig, GroupMember, check_runtime}
use jebao_flow_engine.Mqtt.Models.{
  GroupCommand, GroupCommandResult, GroupMemberState, GroupStatePayload, DeviceStatePayload,
  emergency_stop,
}
use jebao_flow_engine.Mqtt.Service.{
  Service, set_states, remember, groups, is_manual, is_emergency_stop, runtime_of,
  calculate_targets, calculate_members_loop, calculate_members, member_state,
}
use jebao_flow_engine.Mqtt.Service.Changes.{
  apply_change-Changed, Changed-state, refresh_group_members-eq_ok,
}
use jebao_flow_engine.Mqtt.Service.Commands.{
  merge, commit, next_status, is_stop, forces_group, controlled, sync_power, sync_devices_loop,
  sync_group_devices, apply,
}
use jebao_flow_engine.Mqtt.Service.Results.{IsReplayed, IsRejected, IsApplied, apply-cases}
use jebao_flow_engine.Patterns.{or_default, is_group_enabled}
use jebao_flow_engine.Patterns.Targets.{AllWithin, IsWithin, Covers}
use jebao_flow_engine.Patterns.Interface.{Calculator, CalculatorLaws}
use jebao_flow_engine.Protocol.Models.{DeviceTarget}

-- The device is to be off with power 0, and no manual override holds it.
unfoldable pub IsOff : Dict DeviceStatePayload → String → Type 0
IsOff devices device_id =
    (d : DeviceStatePayload) × (lookup device_id devices ≡ some d)
    × (d.enabled ≡ false)
    × (d.power ≡ 0)
    × (is_manual d.control_mode ≡ false)

and_false : (b : Bool) → (b && false) ≡ false
and_false true = refl
and_false false = refl

or_true : (b : Bool) → (b || true) ≡ true
or_true true = refl
or_true false = refl

insert-IsOff_self :
    (device_id : String) (d : DeviceStatePayload) (devices : Dict DeviceStatePayload) (power : ℕ)
    → power ≡ 0
    → IsOff (insert device_id (controlled false power d) devices) device_id
unfolding IsOff controlled
insert-IsOff_self device_id d devices power h =
    (controlled false power d, lookup-insert_self device_id _ devices, refl, h, refl)

insert-IsOff_other :
    (device_id other : String) (d : DeviceStatePayload) (devices : Dict DeviceStatePayload)
    → str_eq device_id other ≡ false
    → IsOff devices other
    → IsOff (insert device_id d devices) other
unfolding IsOff
insert-IsOff_other device_id other d devices apart (x, found, a, b, c) =
    (x, rw (lookup-insert, apart) found, a, b, c)

insert-IsOff :
    (device_id other : String) (d : DeviceStatePayload) (devices : Dict DeviceStatePayload)
    (power : ℕ)
    → power ≡ 0
    → IsOff devices other
    → IsOff (insert device_id (controlled false power d) devices) other
insert-IsOff device_id other d devices power h off = elim (Bool-cases (str_eq device_id other)) [
  | inl same ↦
      subst (λ k. IsOff (insert device_id (controlled false power d) devices) k)
        ((eq_iff device_id other).0 same) (insert-IsOff_self device_id d devices power h)
  | inr apart ↦ insert-IsOff_other device_id other _ devices apart off
]

module _ {Float : Type 0} where
  -- What the rest of the loop starts from.
  next_start :
      (id : String) (m : GroupMemberState Float) (members : Dict (GroupMemberState Float))
      (devices : Dict DeviceStatePayload) (d : DeviceStatePayload) (power : ℕ) (device_id : String)
      → power ≡ 0
      → (is_some (lookup device_id ((id, m) ∷ members)) ≡ true) ⊎ IsOff devices device_id
      → (is_some (lookup device_id members) ≡ true)
        ⊎ IsOff (insert id (controlled false power d) devices) device_id
  unfolding lookup
  next_start id m members devices d power device_id h (inr off) =
      inr (insert-IsOff id device_id d devices power h off)
  next_start id m members devices d power device_id h (inl e) =
      elim (Bool-cases (str_eq id device_id)) [
        | inl same ↦ inr (
            subst (λ k. IsOff (insert id (controlled false power d) devices) k)
              ((eq_iff id device_id).0 same) (insert-IsOff_self id d devices power h))
        | inr apart ↦ inl (rw apart at e)
      ]

  sync_devices_loop-IsOff :
      (raw_targets : Dict DeviceTarget) (members : Dict (GroupMemberState Float))
      (devices result : Dict DeviceStatePayload) (device_id : String)
      → sync_devices_loop true false raw_targets members devices ≡ ok result
      → ((id : String) (target : DeviceTarget)
          → lookup id raw_targets ≡ some target
          → target.power ≡ 0)
      → (is_some (lookup device_id members) ≡ true) ⊎ IsOff devices device_id
      → IsOff result device_id
  unfolding sync_devices_loop sync_power
  sync_devices_loop-IsOff raw_targets [] devices result device_id h zero_power (inl e) =
      absurd (false≢true (sym (ap is_some (lookup-nil device_id)) ∙ e))
  sync_devices_loop-IsOff raw_targets [] devices result device_id h zero_power (inr off) =
      subst (λ d. IsOff d device_id) (ok-injective h) off
  sync_devices_loop-IsOff raw_targets ((id, m) ∷ members) devices result device_id h zero_power
        start =
      let (current, _, h1) = >>=-eq-ok (require key_error (lookup id devices)) _ h in
      let h2 = rw (and_false (is_manual current.control_mode)) at h1 in
      let (power, is_power, h3) = >>=-eq-ok (sync_power true raw_targets id m.target_power) _ h2 in
      let (target, found, h4) = >>=-eq-ok (require key_error (lookup id raw_targets)) _ is_power in
      let is_zero =
        sym (ok-injective h4) ∙ zero_power id target (require-eq-ok key_error _ found) in
      sync_devices_loop-IsOff raw_targets members _ result device_id h3 zero_power
        (next_start id m members devices current power device_id is_zero start)

module _ (F : Floats) (C : Calculator F) (config : AppConfig F.Float) (clock : ℕ → F.Float) where
  open F use {Float}

  calculate_members_loop-keeps :
      (devices : Dict DeviceStatePayload) (targets : Dict DeviceTarget)
      (members : List (GroupMember Float)) (calculated result : Dict (GroupMemberState Float))
      (device : String)
      → calculate_members_loop F C config devices targets members calculated ≡ ok result
      → is_some (lookup device calculated) ≡ true
      → is_some (lookup device result) ≡ true
  unfolding calculate_members_loop
  calculate_members_loop-keeps devices targets [] calculated result device h e =
      subst (λ d. is_some (lookup device d) ≡ true) (ok-injective h) e
  calculate_members_loop-keeps devices targets (m ∷ members) calculated result device h e =
      elim (Option-cases (lookup m.device targets)) [
        | inl no_target ↦
            calculate_members_loop-keeps devices targets members calculated result device
              (rw (calculate_members_loop, no_target) at h) e
        | inr (target, found) ↦
            let (entry, _, rest) =
              >>=-eq-ok (member_state F C config m target (lookup m.device devices)) _
                (rw (calculate_members_loop, found) at h) in
            calculate_members_loop-keeps devices targets members _ result device rest
              (rw lookup-insert (ground (arith, e)))
      ]

  calculate_members_loop-Covers :
      (devices : Dict DeviceStatePayload) (targets : Dict DeviceTarget)
      (members : List (GroupMember Float)) (calculated result : Dict (GroupMemberState Float))
      → calculate_members_loop F C config devices targets members calculated ≡ ok result
      → Covers members targets
      → All (λ m. is_some (lookup m.device result) ≡ true) members
  unfolding calculate_members_loop Covers
  calculate_members_loop-Covers devices targets [] calculated result h c = tt
  calculate_members_loop-Covers devices targets (m ∷ members) calculated result h c =
      elim (Option-cases (lookup m.device targets)) [
        | inl no_target ↦ absurd (false≢true (sym (ap is_some no_target) ∙ c.0))
        | inr (target, found) ↦
            let (entry, _, rest) =
              >>=-eq-ok (member_state F C config m target (lookup m.device devices)) _
                (rw (calculate_members_loop, found) at h) in
            (
              calculate_members_loop-keeps devices targets members _ result m.device rest
                  (ap is_some (lookup-insert_self m.device entry calculated)),
              calculate_members_loop-Covers devices targets members _ result rest c.1,
            )
      ]

  module _ (L : CalculatorLaws F C) where
    -- The targets of a group that is disabled have power 0, and there is one for each member.
    calculate_targets-off :
        (now : Float) (state : GroupStatePayload Float) (g : GroupConfig Float)
        (targets : Dict DeviceTarget)
        → calculate_targets F C config now state ≡ ok targets
        → lookup state.group_id (groups F C config) ≡ some g
        → state.enabled ≡ false
        → Covers g.members targets
          × ((id : String) (target : DeviceTarget)
              → lookup id targets ≡ some target
              → target.power ≡ 0)
    unfolding calculate_targets AllWithin IsWithin is_group_enabled runtime_of
    calculate_targets-off now state g targets h known off =
        let (g', found, h1) =
          >>=-eq-ok (require key_error (lookup state.group_id (groups F C config))) _ h in
        let same = ap (or_default g) (sym (require-eq-ok key_error _ found) ∙ known) in
        let (_, _, h2) = >>=-eq-ok (check_runtime F (runtime_of F C config state)) _ h1 in
        let (limits, within, covered) =
          L.targets-eq_ok now g' (runtime_of F C config state) targets h2 in
        (
          subst (λ x. Covers x.members targets) same covered,
          λ id target e. (within id target e).1 ((within id target e).0 off),
        )

    sync_group_devices-IsOff :
        (now : Float) (group_id : String) (state : GroupStatePayload Float) (g : GroupConfig Float)
        (s t : Service Float)
        → sync_group_devices F C config clock now group_id true s ≡ ok t
        → lookup group_id s.states ≡ some state
        → lookup state.group_id (groups F C config) ≡ some g
        → state.enabled ≡ false
        → (id : String) → is_some (lookup id state.members) ≡ true
        → IsOff t.device_states id
    unfolding sync_group_devices
    sync_group_devices-IsOff now group_id state g s t h known config_of off id member =
        let (found, e, h1) = >>=-eq-ok (require key_error (lookup group_id s.states)) _ h in
        let same = ap (or_default state) (sym (require-eq-ok key_error _ e) ∙ known) in
        let (targets, calculated, h2) = >>=-eq-ok (calculate_targets F C config now found) _ h1 in
        let (_, zero_power) =
          calculate_targets-off now state g targets
            (subst (λ x. calculate_targets F C config now x ≡ ok targets) same calculated) config_of
            off in
        let (devices, looped, h3) =
          >>=-eq-ok (sync_devices_loop true found.enabled targets found.members s.device_states) _
            h2 in
        let looped_off =
          subst (λ b. sync_devices_loop true b targets state.members s.device_states ≡ ok devices)
            off
            (subst
              (λ x. sync_devices_loop true x.enabled targets x.members s.device_states ≡ ok devices)
              same looped) in
        subst (λ x. IsOff x.device_states id) (ok-injective h3)
          (sync_devices_loop-IsOff targets state.members s.device_states devices id looped_off
            zero_power (inl member))

    calculate_members-Covers :
        (now : Float) (devices : Dict DeviceStatePayload) (state : GroupStatePayload Float)
        (g : GroupConfig Float) (members : Dict (GroupMemberState Float))
        → calculate_members F C config now devices state ≡ ok members
        → lookup state.group_id (groups F C config) ≡ some g
        → state.enabled ≡ false
        → All (λ m. is_some (lookup m.device members) ≡ true) g.members
    unfolding calculate_members
    calculate_members-Covers now devices state g members h known off =
        let (g', e, h1) =
          >>=-eq-ok (require key_error (lookup state.group_id (groups F C config))) _ h in
        let same = ap (or_default g) (sym (require-eq-ok key_error _ e) ∙ known) in
        let (targets, calculated, h2) = >>=-eq-ok (calculate_targets F C config now state) _ h1 in
        let (covered, _) = calculate_targets-off now state g targets calculated known off in
        calculate_members_loop-Covers devices targets g.members [] members
          (subst (λ x. calculate_members_loop F C config devices targets x.members [] ≡ ok members)
            same h2)
          covered

    All-IsOff :
        (members : List (GroupMember Float)) (entries : Dict (GroupMemberState Float))
        (devices : Dict DeviceStatePayload)
        → All (λ m. is_some (lookup m.device entries) ≡ true) members
        → ((id : String) → is_some (lookup id entries) ≡ true → IsOff devices id)
        → All (λ m. IsOff devices m.device) members
    All-IsOff [] entries devices covered off = tt
    All-IsOff (m ∷ members) entries devices covered off =
        (off m.device covered.0, All-IsOff members entries devices covered.1 off)

    -- Where `apply` newly accepts an emergency stop for a configured group whose state stands under the group's id, the
    -- group is disabled with the emergency stop as its status, and the device of each configured member of the group is
    -- off, with power 0 and no manual override. The calculator is assumed to keep its laws.
    pub apply-stops_members :
        (group_id : String) (c : GroupCommand Float) (s t : Service Float) (r : GroupCommandResult)
        (g : GroupConfig Float)
        → apply F C config clock group_id c s ≡ ok (t, r)
        → lookup c.request_id s.results ≡ none
        → r.accepted ≡ true
        → c.action ≡ some emergency_stop
        → lookup group_id (groups F C config) ≡ some g
        → ((state : GroupStatePayload Float)
            → lookup group_id s.states ≡ some state
            → state.group_id ≡ group_id)
        → All (λ m. IsOff t.device_states m.device) g.members
          × ((state : GroupStatePayload Float) × (lookup group_id t.states ≡ some state)
              × (is_emergency_stop state.status ≡ true)
              × (state.enabled ≡ false))
    unfolding IsReplayed IsRejected IsApplied commit merge remember next_status
    apply-stops_members group_id c s t r g h fresh accepted stop known keyed =
        elim (apply-cases F C config clock group_id c s t r h) [
          | inl (found, _) ↦ absurd (none-ne-some r (sym fresh ∙ found))
          | inr (inl (_, _, rejected)) ↦ absurd (false≢true (sym rejected ∙ accepted))
          | inr (inr (current, now, _, _, _, _, done)) ↦
              let changed = apply_change-Changed F C config clock group_id c _ s t r done in
              let (members, after) = Changed-state F C config clock group_id c _ s t r changed in
              let forced =
                ap (λ a. is_some c.enabled || forces_group a) stop ∙ or_true (is_some c.enabled) in
              let config_of =
                ap (λ id. lookup id (groups F C config)) (keyed current now) ∙ known in
              let off = ap (λ a. if is_stop a then false else (merge c current).enabled) stop in
              let covered =
                calculate_members-Covers (clock 0) s.device_states
                  (commit c current (merge c current)) g changed.members changed.is_calculated
                  config_of off in
              let next : GroupStatePayload Float = record (commit c current (merge c current)) {
                members = changed.members;
              } in
              let written = set_states (insert group_id next s.states) s in
              let synced =
                subst
                  (λ b.
                    sync_group_devices F C config clock (clock 1) group_id b written
                    ≡ ok changed.synced)
                  forced changed.is_synced in
              let (_, _, _, refreshed) =
                refresh_group_members-eq_ok F C config clock (clock 2) group_id false changed.synced
                  changed.refreshed changed.is_refreshed in
              let devices =
                ap (λ x. x.device_states) (changed.is_remembered ∙ ap (remember r) refreshed) in
              (
                subst (λ d. All (λ m. IsOff d m.device) g.members) (sym devices)
                    (All-IsOff g.members changed.members changed.synced.device_states covered
                      (λ id e.
                        sync_group_devices-IsOff (clock 1) group_id next g written changed.synced
                          synced (lookup-insert_self group_id next s.states) config_of off id e)),
                (
                  record (commit c current (merge c current)) { members = members },
                  after,
                  ap
                      (λ a.
                        is_emergency_stop (next_status a (merge c current).enabled current.status))
                      stop,
                  off,
                ),
              )
        ]
