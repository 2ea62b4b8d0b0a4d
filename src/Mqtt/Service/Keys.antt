-- ===== src/Mqtt/Service/Keys.antt =====
-- The keys of the group states of mqtt/service.py along its runs.
use jebao_flow_engine.Base.{
  ℕ, ◌+◌, ◌≡◌, refl, sym, ap, subst, ◌∙◌, Bool, true, false, ◌||◌, Bool-cases, Option-cases, inl,
  inr, Option, none, some, List, [], ◌∷◌, String, str_eq, eq_iff, is_some, length, if◌then◌else◌,
}
use mathlib.Core.Option.{none-ne-some}
use jebao_flow_engine.Base.Dict.{Dict, lookup, insert, lookup-nil, lookup-insert}
use jebao_flow_engine.Base.Result.{
  ok, ok-injective, if-cases, >>=-eq-ok, require, require-eq-ok, key_error,
}
use jebao_flow_engine.Config.{AppConfig, is_observer}
use jebao_flow_engine.Devices.Observer.{ObserverEvent}
use jebao_flow_engine.Floats.{Floats}
use jebao_flow_engine.Groups.{GroupConfig}
use jebao_flow_engine.Mqtt.Models.{
  GroupCommand, GroupCommandResult, GroupStatePayload, DeviceStatePayload, check_group_state,
}
use jebao_flow_engine.Mqtt.Service.{Service, remember, calculate_members, refresh_group_members}
use jebao_flow_engine.Mqtt.Service.Changes.{
  apply_change-Changed, sync_group_devices-states, refresh_group_members-eq_ok,
}
use jebao_flow_engine.Mqtt.Service.Commands.{merge, commit, apply}
use jebao_flow_engine.Mqtt.Service.Merge.{Merged, merge_loss, merge_state}
use jebao_flow_engine.Mqtt.Service.Observation.{
  mark_dirty, observed_group, refresh_group_observation, refresh_observations, publish_heartbeat,
  note_published, write_device, refresh_if, mark_groups_if, with_revision, record_merged,
  record_observer_event, is_stale,
}
use jebao_flow_engine.Mqtt.Service.Results.{IsReplayed, IsRejected, IsApplied, apply-cases}
use jebao_flow_engine.Mqtt.Service.Startup.{
  any_locked, initial_payload, initial_state, initial_states, initial_device_states, refresh_all,
  start,
}
use jebao_flow_engine.Patterns.{or_default}
use jebao_flow_engine.Patterns.Interface.{Calculator}

-- Each state stands under the id of its group.
unfoldable pub IsKeyed : {Float : Type 0} → Dict (GroupStatePayload Float) → Type 0
IsKeyed {Float} states =
    (id : String) (state : GroupStatePayload Float)
    → lookup id states ≡ some state
    → state.group_id ≡ id

empty-IsKeyed : (Float : Type 0) → IsKeyed {Float = Float} []
unfolding IsKeyed
empty-IsKeyed Float id state e = absurd (none-ne-some state (sym (lookup-nil id) ∙ e))

module _ {Float : Type 0} where
  insert-IsKeyed :
      (id : String) (state : GroupStatePayload Float) (states : Dict (GroupStatePayload Float))
      → state.group_id ≡ id
      → IsKeyed states
      → IsKeyed (insert id state states)
  unfolding IsKeyed
  insert-IsKeyed id state states same keyed other found e =
      let at = sym (lookup-insert id other state states) ∙ e in
      elim (Bool-cases (str_eq id other)) [
        | inl is ↦
            let now =
              subst (λ b. (if b then some state else lookup other states) ≡ some found) is at in
            ap (λ o. (or_default state o).group_id) (sym now) ∙ same ∙ (eq_iff id other).0 is
        | inr apart ↦
            keyed other found
              (subst (λ b. (if b then some state else lookup other states) ≡ some found) apart at)
      ]

module _ (F : Floats) (C : Calculator F) (config : AppConfig F.Float) (clock : ℕ → F.Float) where
  open F use {Float}

  pub refresh_group_members-IsKeyed :
      (now : Float) (id : String) (more : Bool) (s t : Service Float)
      → refresh_group_members F C config now id more s ≡ ok t
      → IsKeyed s.states
      → IsKeyed t.states
  unfolding IsKeyed
  refresh_group_members-IsKeyed now id more s t h keyed =
      let (state, members, found, same) =
        refresh_group_members-eq_ok F C config clock now id more s t h in
      subst (λ x. IsKeyed x.states) (sym same)
        (insert-IsKeyed id
          (record state {
            revision = if more then state.revision + 1 else state.revision;
            members = members;
          })
          s.states (keyed id state found) keyed)

  pub apply-IsKeyed :
      (group_id : String) (c : GroupCommand Float) (s t : Service Float) (r : GroupCommandResult)
      → apply F C config clock group_id c s ≡ ok (t, r)
      → IsKeyed s.states
      → IsKeyed t.states
  unfolding IsReplayed IsRejected IsApplied remember IsKeyed commit merge
  apply-IsKeyed group_id c s t r h keyed = elim (apply-cases F C config clock group_id c s t r h) [
    | inl (_, same) ↦ subst (λ x. IsKeyed x.states) (sym same) keyed
    | inr (inl (same, _, _)) ↦ subst (λ x. IsKeyed x.states) (sym same) keyed
    | inr (inr (current, known, _, _, _, _, done)) ↦
        let changed = apply_change-Changed F C config clock group_id c _ s t r done in
        let states =
          sync_group_devices-states F C config clock (clock 1) group_id _ _ changed.synced
            changed.is_synced in
        let next : GroupStatePayload Float = record (commit c current (merge c current)) {
          members = changed.members;
        } in
        let written = insert-IsKeyed group_id next s.states (keyed group_id current known) keyed in
        subst (λ x. IsKeyed x.states) (sym changed.is_remembered)
          (refresh_group_members-IsKeyed (clock 2) group_id false changed.synced changed.refreshed
            changed.is_refreshed (subst (λ d. IsKeyed d) (sym states) written))
  ]

  refresh_group_observation-IsKeyed :
      (now : Float) (id : String) (more : Bool) (s t : Service Float)
      → refresh_group_observation F C config clock now id more s ≡ ok t
      → IsKeyed s.states
      → IsKeyed t.states
  unfolding refresh_group_observation observed_group IsKeyed
  refresh_group_observation-IsKeyed now id more s t h keyed =
      let (state, known, h1) = >>=-eq-ok (require key_error (lookup id s.states)) _ h in
      let (members, _, h2) =
        >>=-eq-ok (calculate_members F C config now s.device_states state) _ h1 in
      subst (λ x. IsKeyed x.states) (ok-injective h2)
        (insert-IsKeyed id (observed_group more members state) s.states
          (keyed id state (require-eq-ok key_error _ known)) keyed)

  initial_state-group_id :
      (now : Float) (g : GroupConfig Float) (state : GroupStatePayload Float)
      → initial_state F C config clock now g ≡ ok state
      → state.group_id ≡ g.id
  unfolding initial_state initial_payload
  initial_state-group_id now g state h =
      let (locked, _, h1) =
        >>=-eq-ok
          (elim (is_observer config.runtime.mode || config.runtime.dry_run) [
            | true ↦ ok true
            | false ↦ any_locked F C config clock g.members
          ])
          _ h in
      let (_, _, h2) =
        >>=-eq-ok (check_group_state F (initial_payload F C config clock g locked)) _ h1 in
      let (members, _, h3) =
        >>=-eq-ok (calculate_members F C config now [] (initial_payload F C config clock g locked))
          _ h2 in
      ap (λ x. x.group_id) (sym (ok-injective h3))

  initial_states-IsKeyed :
      (tick : ℕ) (groups : List (GroupConfig Float))
      (states result : Dict (GroupStatePayload Float))
      → initial_states F C config clock tick groups states ≡ ok result
      → IsKeyed states
      → IsKeyed result
  unfolding initial_states initial_state initial_payload
  initial_states-IsKeyed tick [] states result h keyed =
      subst (λ d. IsKeyed d) (ok-injective h) keyed
  initial_states-IsKeyed tick (g ∷ groups) states result h keyed =
      let (state, e, rest) = >>=-eq-ok (initial_state F C config clock (clock tick) g) _ h in
      initial_states-IsKeyed (tick + 1) groups _ result rest
        (insert-IsKeyed g.id state states (initial_state-group_id (clock tick) g state e) keyed)

  refresh_all-IsKeyed :
      (tick : ℕ) (groups : List (GroupConfig Float)) (s t : Service Float)
      → refresh_all F C config clock tick groups s ≡ ok t
      → IsKeyed s.states
      → IsKeyed t.states
  unfolding refresh_all
  refresh_all-IsKeyed tick [] s t h keyed = subst (λ x. IsKeyed x.states) (ok-injective h) keyed
  refresh_all-IsKeyed tick (g ∷ groups) s t h keyed =
      let (u, first, rest) =
        >>=-eq-ok (refresh_group_members F C config (clock tick) g.id false s) _ h in
      refresh_all-IsKeyed (tick + 1) groups u t rest
        (refresh_group_members-IsKeyed (clock tick) g.id false s u first keyed)

  refresh_observations-IsKeyed :
      (tick : ℕ) (group_ids : List String) (more : Bool) (s t : Service Float)
      → refresh_observations F C config clock tick group_ids more s ≡ ok t
      → IsKeyed s.states
      → IsKeyed t.states
  unfolding refresh_observations
  refresh_observations-IsKeyed tick [] more s t h keyed =
      subst (λ x. IsKeyed x.states) (ok-injective h) keyed
  refresh_observations-IsKeyed tick (g ∷ group_ids) more s t h keyed =
      let (u, first, rest) =
        >>=-eq-ok (refresh_group_observation F C config clock (clock tick) g more s) _ h in
      refresh_observations-IsKeyed (tick + 1) group_ids more u t rest
        (refresh_group_observation-IsKeyed (clock tick) g more s u first keyed)

  refresh_if-IsKeyed :
      (test : Bool) (group_ids : List String) (more : Bool) (s t : Service Float)
      → refresh_if F C config clock test group_ids more s ≡ ok t
      → IsKeyed s.states
      → IsKeyed t.states
  unfolding refresh_if
  refresh_if-IsKeyed true group_ids more s t h keyed =
      refresh_observations-IsKeyed 0 group_ids more s t h keyed
  refresh_if-IsKeyed false group_ids more s t h keyed =
      subst (λ x. IsKeyed x.states) (ok-injective h) keyed

  mark_groups_if-states :
      (test : Bool) (group_ids : List String) (s : Service Float)
      → (mark_groups_if F C config clock test group_ids s).states ≡ s.states
  unfolding mark_groups_if mark_dirty
  mark_groups_if-states true group_ids s = refl
  mark_groups_if-states false group_ids s = refl

  write_device-states :
      (device_id : String) (observed_at : Option ℕ) (publish : Bool) (updated : DeviceStatePayload)
      (s : Service Float)
      → (write_device F C config clock device_id observed_at publish updated s).states ≡ s.states
  unfolding write_device note_published mark_dirty
  write_device-states device_id observed_at false updated s = refl
  write_device-states device_id none true updated s = refl
  write_device-states device_id (some at) true updated s = refl

  record_merged-IsKeyed :
      (device_id : String) (observed_at : Option ℕ) (current : DeviceStatePayload) (m : Merged)
      (s t : Service Float)
      → record_merged F C config clock device_id observed_at current m s ≡ ok t
      → IsKeyed s.states
      → IsKeyed t.states
  unfolding record_merged
  record_merged-IsKeyed device_id observed_at current m s t h keyed =
      let updated = with_revision F C config clock m.semantic_changed current.revision m.updated in
      let (heartbeat, _, h1) =
        >>=-eq-ok (publish_heartbeat F C config clock device_id observed_at s) _ h in
      let publish = m.semantic_changed || heartbeat in
      let written = write_device F C config clock device_id observed_at publish updated s in
      let (refreshed, looped, h2) =
        >>=-eq-ok
          (refresh_if F C config clock (is_some observed_at || m.semantic_changed) updated.group_ids
            m.semantic_changed written)
          _ h1 in
      let start_keyed =
        subst (λ d. IsKeyed d) (sym (write_device-states device_id observed_at publish updated s))
          keyed in
      let looped_keyed = refresh_if-IsKeyed _ _ _ written refreshed looped start_keyed in
      subst (λ x. IsKeyed x.states) (ok-injective h2)
        (subst (λ d. IsKeyed d) (sym (mark_groups_if-states publish updated.group_ids refreshed))
          looped_keyed)

  pub record_observer_event-IsKeyed :
      (event : ObserverEvent) (s t : Service Float)
      → record_observer_event F C config clock event s ≡ ok t
      → IsKeyed s.states
      → IsKeyed t.states
  unfolding record_observer_event
  record_observer_event-IsKeyed event s t h keyed =
      elim (Option-cases (lookup event.device_id s.device_states)) [
        | inl e ↦
            subst (λ x. IsKeyed x.states) (ok-injective (rw (record_observer_event, e) at h)) keyed
        | inr (current, known) ↦ elim (Option-cases event.state) [
          | inl e ↦
              record_merged-IsKeyed event.device_id none current
                (merge_loss current event.status event.error) s t
                (rw (record_observer_event, known, e) at h) keyed
          | inr (state, e) ↦
              elim (if-cases (is_stale current.last_seen_at state.observed_at) (ok s)
                (record_merged F C config clock event.device_id (some state.observed_at) current
                  (merge_state current state) s)
                (rw (record_observer_event, known, e) at h)) [
                  | inl (_, same) ↦ subst (λ x. IsKeyed x.states) (ok-injective same) keyed
                  | inr (_, merged) ↦
                      record_merged-IsKeyed event.device_id (some state.observed_at) current
                        (merge_state current state) s t merged keyed
                ]
        ]
      ]

  pub start-IsKeyed : (s : Service Float) → start F C config clock ≡ ok s → IsKeyed s.states
  unfolding start
  start-IsKeyed s h =
      let (states, e, h1) = >>=-eq-ok (initial_states F C config clock 0 config.groups []) _ h in
      let (devices, _, h2) =
        >>=-eq-ok (initial_device_states F C config clock config.devices states []) _ h1 in
      refresh_all-IsKeyed (length config.groups) config.groups _ s h2
        (initial_states-IsKeyed 0 config.groups [] states e (empty-IsKeyed Float))
