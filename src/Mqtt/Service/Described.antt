-- ===== src/Mqtt/Service/Described.antt =====
-- mqtt/service.py: `system_config` beside the device states of the constructor.
use jebao_flow_engine.Base.{
  ℕ, ◌+◌, ◌≡◌, refl, sym, ◌∙◌, ap, subst, true, false, not, Bool-cases, ◌⊎◌, inl, inr, some, List,
  [], ◌∷◌, String, str_eq, eq_iff, any, length, All,
}
use jebao_flow_engine.Base.Dict.{Dict, lookup, insert, lookup-insert, lookup-insert_self}
use jebao_flow_engine.Base.Result.{ok, ok-injective, >>=-eq-ok}
use jebao_flow_engine.Config.{AppConfig, DeviceConfig, is_observer}
use jebao_flow_engine.Floats.{Floats}
use jebao_flow_engine.Groups.{GroupConfig}
use jebao_flow_engine.Mqtt.Models.{
  DeviceDescriptor, DeviceStatePayload, GroupStatePayload, SystemConfigPayload,
  check_device_descriptor, check_device_state,
}
use jebao_flow_engine.Mqtt.Service.{Service, device_config, is_grouped, refresh_group_members}
use jebao_flow_engine.Mqtt.Service.Changes.{refresh_group_members-eq_ok}
use jebao_flow_engine.Mqtt.Service.Description.{
  describe_device, describe_devices, device_observables, system_config,
}
use jebao_flow_engine.Mqtt.Service.Overrides.{device_controls, is_dosing_pump, is_empty}
use jebao_flow_engine.Mqtt.Service.Startup.{
  start, initial_states, initial_device_state, initial_device_states, initial_target, refresh_all,
  group_ids_of,
}
use jebao_flow_engine.Patterns.Interface.{Calculator}

module _ (F : Floats) (C : Calculator F) (config : AppConfig F.Float) (clock : ℕ → F.Float) where
  open F use {Float}

  -- A device has a state, and the state's groups are those of the configuration.
  abbrev HasGroups : Dict DeviceStatePayload → String → Type 0
  HasGroups devices id =
      (state : DeviceStatePayload) × (lookup id devices ≡ some state)
      × (state.group_ids ≡ group_ids_of F C config clock id config.groups)

  insert-HasGroups :
      (devices : Dict DeviceStatePayload) (id other : String) (state : DeviceStatePayload)
      → state.group_ids ≡ group_ids_of F C config clock id config.groups
      → HasGroups devices other
      → HasGroups (insert id state devices) other
  insert-HasGroups devices id other state right (found, known, same) =
      elim (Bool-cases (str_eq id other)) [
        | inl e ↦ (
          state,
          lookup-insert id other state devices ∙ rw e refl,
          right ∙ ap (λ x. group_ids_of F C config clock x config.groups) ((eq_iff id other).0 e),
        )
        | inr apart ↦ (found, lookup-insert id other state devices ∙ rw apart known, same)
      ]

  initial_device_state-group_ids :
      (d : DeviceConfig) (states : Dict (GroupStatePayload Float)) (state : DeviceStatePayload)
      → initial_device_state F C config clock d states ≡ ok state
      → state.group_ids ≡ group_ids_of F C config clock d.id config.groups
  unfolding initial_device_state
  initial_device_state-group_ids d states state h =
      let ids = group_ids_of F C config clock d.id config.groups in
      let (target, _, h1) = >>=-eq-ok (initial_target F C config clock d ids states) _ h in
      let (_, _, h2) = >>=-eq-ok (check_device_state _) _ h1 in
      ap (λ (x : DeviceStatePayload). x.group_ids) (sym (ok-injective h2))

  initial_device_states-keeps_groups :
      (ds : List DeviceConfig) (states : Dict (GroupStatePayload Float))
      (devices out : Dict DeviceStatePayload) (id : String)
      → initial_device_states F C config clock ds states devices ≡ ok out
      → HasGroups devices id
      → HasGroups out id
  unfolding initial_device_states
  initial_device_states-keeps_groups [] states devices out id h known =
      subst (λ x. HasGroups x id) (ok-injective h) known
  initial_device_states-keeps_groups (d ∷ ds) states devices out id h known =
      let (state, made, rest) = >>=-eq-ok (initial_device_state F C config clock d states) _ h in
      initial_device_states-keeps_groups ds states (insert d.id state devices) out id rest (
        insert-HasGroups devices d.id id state (initial_device_state-group_ids d states state made)
          known)

  initial_device_states-HasGroups :
      (ds : List DeviceConfig) (states : Dict (GroupStatePayload Float))
      (devices out : Dict DeviceStatePayload)
      → initial_device_states F C config clock ds states devices ≡ ok out
      → All (λ d. HasGroups out d.id) ds
  unfolding initial_device_states
  initial_device_states-HasGroups [] states devices out h = tt
  initial_device_states-HasGroups (d ∷ ds) states devices out h =
      let (state, made, rest) = >>=-eq-ok (initial_device_state F C config clock d states) _ h in
      (
        initial_device_states-keeps_groups ds states (insert d.id state devices) out d.id rest (
          state,
          lookup-insert_self d.id state devices,
          initial_device_state-group_ids d states state made,
        ),
        initial_device_states-HasGroups ds states (insert d.id state devices) out rest,
      )

  refresh_all-device_states :
      (tick : ℕ) (groups : List (GroupConfig Float)) (s t : Service Float)
      → refresh_all F C config clock tick groups s ≡ ok t
      → t.device_states ≡ s.device_states
  unfolding refresh_all
  refresh_all-device_states tick [] s t h =
      ap (λ (x : Service Float). x.device_states) (sym (ok-injective h))
  refresh_all-device_states tick (g ∷ groups) s t h =
      let (u, first, rest) =
        >>=-eq-ok (refresh_group_members F C config (clock tick) g.id false s) _ h in
      let (_, _, _, same) =
        refresh_group_members-eq_ok F C config clock (clock tick) g.id false s u first in
      refresh_all-device_states (tick + 1) groups u t rest
      ∙ ap (λ (x : Service Float). x.device_states) same

  start-HasGroups :
      (s : Service Float)
      → start F C config clock ≡ ok s
      → All (λ d. HasGroups s.device_states d.id) config.devices
  unfolding start
  start-HasGroups s h =
      let (states, _, h1) = >>=-eq-ok (initial_states F C config clock 0 config.groups []) _ h in
      let (devices, made, h2) =
        >>=-eq-ok (initial_device_states F C config clock config.devices states []) _ h1 in
      subst (λ x. All (λ d. HasGroups x d.id) config.devices)
        (sym (refresh_all-device_states (length config.groups) config.groups _ s h2))
        (initial_device_states-HasGroups config.devices states [] devices made)

  any-group_ids_of :
      (id : String) (groups : List (GroupConfig Float))
      → any (λ g. any (λ m. str_eq m.device id) g.members) groups
        ≡ not (is_empty (group_ids_of F C config clock id groups))
  unfolding group_ids_of
  any-group_ids_of id [] = refl
  any-group_ids_of id (g ∷ groups) = elim (Bool-cases (any (λ m. str_eq m.device id) g.members)) [
    | inl e ↦ rw e refl
    | inr e ↦ rw e (any-group_ids_of id groups)
  ]

  -- What the constructor's state of a device says beside its description.
  pub record IsDescribed (s : Service Float) (x : DeviceDescriptor) : Type 0 where
    pub state : DeviceStatePayload
    pub known : lookup x.id s.device_states ≡ some state
    pub grouped : x.grouped ≡ not (is_empty state.group_ids)
    pub resumes :
        (any (str_eq "resume_group") x.controls ≡ false)
        ⊎ ((any (str_eq "resume_group") x.controls ≡ true)
            × (is_observer config.runtime.mode ≡ false)
            × (not (is_empty state.group_ids) ≡ true))

  device_controls-resume_group :
      (id : String) (controls : List String)
      → device_controls F C config clock id ≡ ok controls
      → (any (str_eq "resume_group") controls ≡ false)
        ⊎ ((any (str_eq "resume_group") controls ≡ true)
            × (is_observer config.runtime.mode ≡ false)
            × (is_grouped F C config id ≡ true))
  unfolding device_controls
  device_controls-resume_group id controls h =
      let (device, _, h1) = >>=-eq-ok (device_config F C config id) _ h in
      let e = ok-injective h1 in
      let without = λ (cs : List String). any (str_eq "resume_group") cs ≡ false in
      elim (Bool-cases (is_observer config.runtime.mode)) [
        | inl reads ↦ inl (subst without (rw reads at e) refl)
        | inr writes ↦ elim (Bool-cases (is_dosing_pump device.type)) [
          | inl doses ↦ inl (subst without (rw (writes, doses) at e) refl)
          | inr flows ↦ elim (Bool-cases (is_grouped F C config id)) [
            | inl member ↦ inr (
              subst (λ cs. any (str_eq "resume_group") cs ≡ true) (rw (writes, flows, member) at e)
                  refl,
              writes,
              member,
            )
            | inr alone ↦ inl (subst without (rw (writes, flows, alone) at e) refl)
          ]
        ]
      ]

  describe_device-IsDescribed :
      (s : Service Float) (d : DeviceConfig) (x : DeviceDescriptor)
      → HasGroups s.device_states d.id
      → describe_device F C config clock d ≡ ok x
      → IsDescribed s x
  unfolding describe_device is_grouped
  describe_device-IsDescribed s d x (state, known, right) h =
      let (controls, offered, h1) = >>=-eq-ok (device_controls F C config clock d.id) _ h in
      let (observables, _, h2) = >>=-eq-ok (device_observables F C config clock d.id) _ h1 in
      let (_, _, h3) = >>=-eq-ok (check_device_descriptor _) _ h2 in
      let member : is_grouped F C config d.id ≡ not (is_empty state.group_ids) =
        any-group_ids_of d.id config.groups ∙ ap (λ ids. not (is_empty ids)) (sym right) in
      subst (IsDescribed s) (ok-injective h3) (record {
        state = state;
        known = known;
        grouped = member;
        resumes = elim (device_controls-resume_group d.id controls offered) [
          | inl without ↦ inl without
          | inr (has, writes, is_member) ↦ inr (has, writes, sym member ∙ is_member)
        ];
      })

  describe_devices-IsDescribed :
      (s : Service Float) (ds : List DeviceConfig) (xs : List DeviceDescriptor)
      → All (λ d. HasGroups s.device_states d.id) ds
      → describe_devices F C config clock ds ≡ ok xs
      → All (IsDescribed s) xs
  unfolding describe_devices
  describe_devices-IsDescribed s [] xs known h = subst (All (IsDescribed s)) (ok-injective h) tt
  describe_devices-IsDescribed s (d ∷ ds) xs (first, others) h =
      let (x, described, h1) = >>=-eq-ok (describe_device F C config clock d) _ h in
      let (rest, all_described, h2) = >>=-eq-ok (describe_devices F C config clock ds) _ h1 in
      subst (All (IsDescribed s)) (ok-injective h2) (
        describe_device-IsDescribed s d x first described,
        describe_devices-IsDescribed s ds rest others all_described,
      )

  -- `system_config` agrees with the service that the constructor makes: every device that it describes has a state, it is
  -- described as grouped exactly when its state names groups, and it is offered `resume_group` only in control mode and
  -- when its state has a group to resume.
  pub system_config-IsDescribed :
      (s : Service Float) (payload : SystemConfigPayload)
      → start F C config clock ≡ ok s
      → system_config F C config clock ≡ ok payload
      → All (IsDescribed s) payload.devices
  unfolding system_config
  system_config-IsDescribed s payload started described =
      let (xs, e, h) = >>=-eq-ok (describe_devices F C config clock config.devices) _ described in
      subst (λ (p : SystemConfigPayload). All (IsDescribed s) p.devices) (ok-injective h)
        (describe_devices-IsDescribed s config.devices xs (start-HasGroups s started) e)
