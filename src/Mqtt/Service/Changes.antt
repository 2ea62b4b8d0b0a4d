-- ===== src/Mqtt/Service/Changes.antt =====
-- What `apply` of mqtt/service.py does once a command has passed the guards.
use jebao_flow_engine.Base.{
  ℕ, ◌+◌, ◌≤◌, ◌≡◌, refl, sym, ap, subst, ◌∙◌, Bool, true, false, ◌||◌, arith, if◌then◌else◌, inl,
  inr, none, some, String, is_some, length,
}
use mathlib.Core.Option.{none-ne-some}
use jebao_flow_engine.Base.Dict.{Dict, lookup, insert, lookup-insert_self}
use jebao_flow_engine.Base.Result.{ok, ok-injective, >>=-eq-ok, require, require-eq-ok, key_error}
use jebao_flow_engine.Config.{AppConfig}
use jebao_flow_engine.Floats.{Floats}
use jebao_flow_engine.Mqtt.Models.{
  GroupCommand, GroupCommandResult, GroupMemberState, GroupStatePayload, check_group_state,
}
use jebao_flow_engine.Mqtt.Service.{
  Service, set_states, remember, calculate_targets, calculate_members, refresh_group_members,
}
use jebao_flow_engine.Mqtt.Service.Commands.{
  merge, commit, next_status, accept, forces_group, sync_devices_loop, sync_group_devices,
  apply_change, apply,
}
use jebao_flow_engine.Mqtt.Service.Results.{
  IsReplayed, IsRejected, IsApplied, apply-cases, lookup-remember, length-remember,
}
use jebao_flow_engine.Patterns.{or_default}
use jebao_flow_engine.Patterns.Interface.{Calculator}

module _ (F : Floats) (C : Calculator F) (config : AppConfig F.Float) (clock : ℕ → F.Float) where
  open F use {Float}

  -- The states between the steps of a change.
  pub record Changed (group_id : String) (c : GroupCommand Float) (next : GroupStatePayload Float)
      (s t : Service Float) (r : GroupCommandResult) : Type 0 where
    pub members : Dict (GroupMemberState Float)
    pub synced : Service Float
    pub refreshed : Service Float
    pub is_calculated : calculate_members F C config (clock 0) s.device_states next ≡ ok members
    pub is_synced :
        sync_group_devices F C config clock
          (clock 1)
          group_id
          (is_some c.enabled || forces_group c.action)
          (set_states (insert group_id (record next { members = members }) s.states) s)
        ≡ ok synced
    pub is_refreshed :
        refresh_group_members F C config (clock 2) group_id false synced ≡ ok refreshed
    pub is_remembered : t ≡ remember r refreshed
    pub keeps_request : r.request_id ≡ c.request_id
    pub is_accepted : r.accepted ≡ true
    pub keeps_revision : r.revision ≡ next.revision

  pub apply_change-Changed :
      (group_id : String) (c : GroupCommand Float) (next : GroupStatePayload Float)
      (s t : Service Float) (r : GroupCommandResult)
      → apply_change F C config clock group_id c next s ≡ ok (t, r)
      → Changed group_id c next s t r
  unfolding apply_change accept
  apply_change-Changed group_id c next s t r h =
      let (_, checked, h1) = >>=-eq-ok (check_group_state F next) _ h in
      let (members, calculated, h2) =
        >>=-eq-ok (calculate_members F C config (clock 0) s.device_states next) _ h1 in
      let (synced, is_synced, h3) =
        >>=-eq-ok
          (sync_group_devices F C config clock (clock 1) group_id
            (is_some c.enabled || forces_group c.action) _)
          _ h2 in
      let (refreshed, is_refreshed, h4) =
        >>=-eq-ok (refresh_group_members F C config (clock 2) group_id false synced) _ h3 in
      let same = ok-injective h4 in
      let same_r = ap (λ p. p.1) same in
      record {
        members = members;
        synced = synced;
        refreshed = refreshed;
        is_calculated = calculated;
        is_synced = is_synced;
        is_refreshed = is_refreshed;
        is_remembered = sym (ap (λ p. p.0) same) ∙ ap (λ x. remember x refreshed) same_r;
        keeps_request = sym (ap (λ x. x.request_id) same_r);
        is_accepted = sym (ap (λ x. x.accepted) same_r);
        keeps_revision = sym (ap (λ x. x.revision) same_r);
      }

  -- A device update leaves the groups' states.
  pub sync_group_devices-states :
      (now : Float) (group_id : String) (force : Bool) (s t : Service Float)
      → sync_group_devices F C config clock now group_id force s ≡ ok t
      → t.states ≡ s.states
  unfolding sync_group_devices
  sync_group_devices-states now group_id force s t h =
      let (state, _, h1) = >>=-eq-ok (require key_error (lookup group_id s.states)) _ h in
      let (targets, _, h2) = >>=-eq-ok (calculate_targets F C config now state) _ h1 in
      let (devices, _, h3) =
        >>=-eq-ok (sync_devices_loop force state.enabled targets state.members s.device_states) _
          h2 in
      sym (ap (λ x. x.states) (ok-injective h3))

  -- A refresh changes the revision and the members of one group's state.
  pub refresh_group_members-eq_ok :
      (now : Float) (group_id : String) (more : Bool) (s t : Service Float)
      → refresh_group_members F C config now group_id more s ≡ ok t
      → (state : GroupStatePayload Float) × (members : Dict (GroupMemberState Float)) × (lookup
            group_id s.states
          ≡ some state)
        × (t
            ≡ set_states
                (insert group_id
                  (record state {
                    revision = if more then state.revision + 1 else state.revision;
                    members = members;
                  })
                  s.states)
                s)
  unfolding refresh_group_members
  refresh_group_members-eq_ok now group_id more s t h =
      let (state, known, h1) = >>=-eq-ok (require key_error (lookup group_id s.states)) _ h in
      let (members, _, h2) =
        >>=-eq-ok (calculate_members F C config now s.device_states state) _ h1 in
      (state, members, require-eq-ok key_error _ known, sym (ok-injective h2))

  -- The group's state after a change is the new one, with its members calculated again.
  pub Changed-state :
      (group_id : String) (c : GroupCommand Float) (next : GroupStatePayload Float)
      (s t : Service Float) (r : GroupCommandResult)
      → Changed group_id c next s t r
      → (members : Dict (GroupMemberState Float)) × (lookup group_id t.states
          ≡ some (record next { members = members }))
  unfolding remember
  Changed-state group_id c next s t r h =
      let (state, members, found, written) =
        refresh_group_members-eq_ok (clock 2) group_id false h.synced h.refreshed h.is_refreshed in
      let states = sync_group_devices-states _ group_id _ _ h.synced h.is_synced in
      let was = sym found ∙ ap (lookup group_id) states ∙ lookup-insert_self group_id _ s.states in
      let state_is = ap (or_default state) was in
      (
        members,
        ap (λ x. lookup group_id x.states) (h.is_remembered ∙ ap (remember r) written)
            ∙ lookup-insert_self group_id _ h.synced.states
            ∙ ap {A = GroupStatePayload Float} (λ x. some (record x { members = members }))
                state_is,
      )

  remembers :
      (group_id : String) (c : GroupCommand Float) (s t : Service Float) (r : GroupCommandResult)
      → apply F C config clock group_id c s ≡ ok (t, r)
      → lookup c.request_id t.results ≡ some r
  unfolding IsReplayed IsRejected IsApplied
  remembers group_id c s t r h = elim (apply-cases F C config clock group_id c s t r h) [
    | inl (found, same) ↦ ap (λ x. lookup c.request_id x.results) same ∙ found
    | inr (inl (same, id, _)) ↦ rw (same, sym id) (lookup-remember r s)
    | inr (inr (current, _, _, _, _, _, done)) ↦
        let changed = apply_change-Changed group_id c _ s t r done in
        rw (changed.is_remembered, sym changed.keeps_request) (lookup-remember r changed.refreshed)
  ]

  -- Applying a group command again, or any other command with its request id, to any group, right after `apply`
  -- returned a result, returns the same result and leaves the service as it is.
  pub apply_again :
      (group_id other : String) (c d : GroupCommand Float) (s t : Service Float)
      (r : GroupCommandResult)
      → apply F C config clock group_id c s ≡ ok (t, r)
      → d.request_id ≡ c.request_id
      → apply F C config clock other d t ≡ ok (t, r)
  unfolding apply
  apply_again group_id other c d s t r h same = rw (apply, same, remembers group_id c s t r h) refl

  -- After a command that `apply` newly accepts, the group's revision is one more than before and is the result's, its
  -- last request id is the command's, its status is what `next_status` gives for the action, its minimum is at most its
  -- maximum, and where it is enabled its power lies between them.
  pub apply-accepted :
      (group_id : String) (c : GroupCommand Float) (s t : Service Float) (r : GroupCommandResult)
      → apply F C config clock group_id c s ≡ ok (t, r)
      → lookup c.request_id s.results ≡ none
      → r.accepted ≡ true
      → (before : GroupStatePayload Float) × (after : GroupStatePayload Float) × (lookup group_id
            s.states
          ≡ some before)
        × (lookup group_id t.states ≡ some after)
        × (after.revision ≡ before.revision + 1)
        × (r.revision ≡ after.revision)
        × (after.last_request_id ≡ some c.request_id)
        × (after.status ≡ next_status c.action (merge c before).enabled before.status)
        × (after.min_power ≤ after.max_power)
        × (after.enabled ≡ true → (after.min_power ≤ after.power) × (after.power ≤ after.max_power))
  unfolding IsReplayed IsRejected IsApplied merge commit
  apply-accepted group_id c s t r h fresh accepted =
      elim (apply-cases F C config clock group_id c s t r h) [
        | inl (found, _) ↦ absurd (none-ne-some r (sym fresh ∙ found))
        | inr (inl (_, _, rejected)) ↦ cc
        | inr (inr (current, known, mode, lock, order, range, done)) ↦
            let changed = apply_change-Changed group_id c _ s t r done in
            let (members, now) = Changed-state group_id c _ s t r changed in
            (
              current,
              record (commit c current (merge c current)) { members = members },
              known,
              now,
              refl,
              changed.keeps_revision,
              refl,
              refl,
              ground (arith, order),
              λ on. ground (arith, range, on),
            )
      ]

  -- `apply` keeps the number of remembered results of group commands at 512 or less.
  pub length-apply :
      (group_id : String) (c : GroupCommand Float) (s t : Service Float) (r : GroupCommandResult)
      → apply F C config clock group_id c s ≡ ok (t, r)
      → length s.results ≤ 512
      → length t.results ≤ 512
  unfolding IsReplayed IsRejected IsApplied
  length-apply group_id c s t r h fits = elim (apply-cases F C config clock group_id c s t r h) [
    | inl (_, same) ↦ subst (λ x. length x.results ≤ 512) (sym same) fits
    | inr (inl (same, _, _)) ↦ subst (λ x. length x.results ≤ 512) (sym same) (length-remember r s)
    | inr (inr (current, _, _, _, _, _, done)) ↦
        let changed = apply_change-Changed group_id c _ s t r done in
        subst (λ x. length x.results ≤ 512) (sym changed.is_remembered)
          (length-remember r changed.refreshed)
  ]
