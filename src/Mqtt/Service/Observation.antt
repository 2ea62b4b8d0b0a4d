-- ===== src/Mqtt/Service/Observation.antt =====
-- mqtt/service.py: `record_observer_event` and `wait_for_updates`.
use jebao_flow_engine.Base.{
  ℕ, ◌+◌, ◌-◌, Bool, true, false, ◌&&◌, ◌||◌, leb, ltb, ◌==◌, if◌then◌else◌, Option, none, some,
  List, [], ◌∷◌, String, str_eq, is_some, any, keep, length, map,
}
use jebao_flow_engine.Base.Dict.{Dict, lookup, insert}
use jebao_flow_engine.Base.Result.{Result, ok, ◌>>=◌, require, key_error}
use jebao_flow_engine.Config.{AppConfig}
use jebao_flow_engine.Devices.Observer.{ObserverEvent}
use jebao_flow_engine.Floats.{Floats}
use jebao_flow_engine.Groups.{GroupState, degraded, running, starting, stopped}
use jebao_flow_engine.Mqtt.Models.{GroupMemberState, GroupStatePayload, DeviceStatePayload}
use jebao_flow_engine.Mqtt.Service.{Service, set_states, set_device_states, calculate_members}
use jebao_flow_engine.Mqtt.Service.Merge.{Merged, has_text, merge_state, merge_loss}
use jebao_flow_engine.Patterns.Interface.{Calculator}
use Prim.Native.String.{compare}
use text.Mathlib.Text.{is_lt}

pub record StateUpdate : Type 0 where
  pub device_ids : List String
  pub group_ids : List String

-- `set.update(names)`
unfoldable pub add_all : List String → List String → List String
add_all [] names = names
add_all (n ∷ more) names = add_all more (if any (str_eq n) names then names else n ∷ names)

abbrev pub values {ℓ} : {V : Type ℓ} → Dict V → List V
values [] = []
values ((k, v) ∷ d) = v ∷ values d

-- `max(xs) if xs else None`, of the dates that are not None
unfoldable pub newest : List (Option ℕ) → Option ℕ
newest [] = none
newest (none ∷ dates) = newest dates
newest (some a ∷ dates) =
    let rest = newest dates in
    elim rest [ none ↦ some a | some b ↦ some (if ltb a b then b else a) ]

abbrev pub is_true : Option Bool → Bool
is_true (some true) = true
is_true _ = false

-- Whether an observation is no newer than the last one.
abbrev pub is_stale : Option ℕ → ℕ → Bool
is_stale none observed_at = false
is_stale (some last_seen_at) observed_at = leb observed_at last_seen_at

module _ {Float : Type 0} where
  unfoldable pub mark_dirty : List String → List String → Service Float → Service Float
  unfolding add_all
  mark_dirty device_ids group_ids s = record s {
    dirty_devices = add_all device_ids s.dirty_devices;
    dirty_groups = add_all group_ids s.dirty_groups;
    is_update_event_set = true;
  }

  -- The status of a group from its members' observations.
  unfoldable pub observed_group_status : List (GroupMemberState Float) → GroupState
  unfolding has_text
  observed_group_status members =
      let errors = keep (λ m. has_text m.error) members in
      let online = keep (λ m. is_true m.online) members in
      let observed = keep (λ m. is_some m.online) members in
      if ltb 0 (length errors) && length errors == length members
      then GroupState.error
      else if ltb 0 (length errors)
      then degraded
      else if length online == length members && ltb 0 (length members)
      then (if any (λ m. is_true m.actual_enabled) online then running else stopped)
      else if ltb 0 (length online)
      then degraded
      else if ltb 0 (length observed)
      then GroupState.error
      else starting

  unfoldable pub observed_group :
      Bool → Dict (GroupMemberState Float) → GroupStatePayload Float → GroupStatePayload Float
  unfolding observed_group_status newest
  observed_group increment_revision members state =
      let online = keep (λ m. is_true m.online) (values members) in
      record state {
        revision = if increment_revision then state.revision + 1 else state.revision;
        members = members;
        status = observed_group_status (values members);
        actual_enabled =
            if ltb 0 (length online)
            then some (any (λ m. is_true m.actual_enabled) online)
            else none;
        online_member_count = length online;
        member_count = length members;
        last_seen_at = newest (map (λ m. m.last_seen_at) (values members));
        last_changed_at = newest (map (λ m. m.last_changed_at) (values members));
        last_configuration_changed_at =
            newest (map (λ m. m.last_configuration_changed_at) (values members));
      }

module _ (F : Floats) (C : Calculator F) (config : AppConfig F.Float) (clock : ℕ → F.Float) where
  open F use {Float, of_nat, div, sub, le}

  unfoldable pub refresh_group_observation :
      Float → String → Bool → Service Float → Result (Service Float)
  unfolding observed_group
  refresh_group_observation now group_id increment_revision s = do
    state ← require key_error (lookup group_id s.states)
    members ← calculate_members F C config now s.device_states state
    ok (set_states (insert group_id (observed_group increment_revision members state) s.states) s)

  unfoldable pub refresh_observations :
      ℕ → List String → Bool → Service Float → Result (Service Float)
  unfolding refresh_group_observation
  refresh_observations tick [] increment_revision s = ok s
  refresh_observations tick (group_id ∷ group_ids) increment_revision s = do
    refreshed ← refresh_group_observation (clock tick) group_id increment_revision s
    refresh_observations (tick + 1) group_ids increment_revision refreshed

  -- `(a - b).total_seconds()`
  unfoldable pub total_seconds : ℕ → ℕ → Float
  total_seconds a b =
      if ltb a b
      then sub (of_nat 0) (div (of_nat (b - a)) (of_nat 1000000))
      else div (of_nat (a - b)) (of_nat 1000000)

  -- Whether a heartbeat is due for an observation at a time.
  unfoldable pub is_heartbeat_due : Option ℕ → ℕ → Bool
  unfolding total_seconds
  is_heartbeat_due none observed_at = true
  is_heartbeat_due (some last_published) observed_at =
      le config.observer_config.publish_heartbeat_seconds (total_seconds observed_at last_published)

  -- `publish_heartbeat`
  unfoldable pub publish_heartbeat : String → Option ℕ → Service Float → Result Bool
  unfolding is_heartbeat_due
  publish_heartbeat device_id none s = ok false
  publish_heartbeat device_id (some observed_at) s = do
    last_published ← require key_error (lookup device_id s.last_published_seen_at)
    ok (is_heartbeat_due last_published observed_at)

  -- `self._last_published_seen_at[device_id] = observed_at`, after a successful observation
  unfoldable pub note_published : String → Option ℕ → Service Float → Service Float
  note_published device_id none s = s
  note_published device_id (some observed_at) s = record s {
    last_published_seen_at = insert device_id (some observed_at) s.last_published_seen_at;
  }

  -- The service with the device's new state, marked dirty where it is to be published.
  unfoldable pub write_device :
      String → Option ℕ → Bool → DeviceStatePayload → Service Float → Service Float
  unfolding note_published mark_dirty
  write_device device_id observed_at publish updated s =
      let written = set_device_states (insert device_id updated s.device_states) s in
      if publish
      then mark_dirty (device_id ∷ []) [] (note_published device_id observed_at written)
      else written

  unfoldable pub refresh_if : Bool → List String → Bool → Service Float → Result (Service Float)
  unfolding refresh_observations
  refresh_if test group_ids increment_revision s =
      if test then refresh_observations 0 group_ids increment_revision s else ok s

  unfoldable pub mark_groups_if : Bool → List String → Service Float → Service Float
  unfolding mark_dirty
  mark_groups_if test group_ids s = if test then mark_dirty [] group_ids s else s

  abbrev pub with_revision : Bool → ℕ → DeviceStatePayload → DeviceStatePayload
  with_revision semantic_changed revision d = record d {
    revision = if semantic_changed then revision + 1 else revision;
  }

  -- The updates after the merge; `observed_at` is the time of a successful observation.
  unfoldable pub record_merged :
      String → Option ℕ → DeviceStatePayload → Merged → Service Float → Result (Service Float)
  unfolding publish_heartbeat write_device refresh_if mark_groups_if
  record_merged device_id observed_at current m s = do
    let updated = with_revision m.semantic_changed current.revision m.updated
    heartbeat ← publish_heartbeat device_id observed_at s
    let publish = m.semantic_changed || heartbeat
    refreshed ←
        refresh_if (is_some observed_at || m.semantic_changed) updated.group_ids m.semantic_changed
          (write_device device_id observed_at publish updated s)
    ok (mark_groups_if publish updated.group_ids refreshed)

  unfoldable pub record_observer_event : ObserverEvent → Service Float → Result (Service Float)
  unfolding merge_state merge_loss record_merged
  record_observer_event event s = elim (lookup event.device_id s.device_states) [
    | none ↦ ok s
    | some current ↦ elim event.state [
      | none ↦
          record_merged event.device_id none current (merge_loss current event.status event.error) s
      | some state ↦
          if is_stale current.last_seen_at state.observed_at
          then ok s
          else record_merged event.device_id (some state.observed_at) current
              (merge_state current state) s
    ]
  ]

-- `sorted(names)`
unfoldable pub insert_sorted : String → List String → List String
insert_sorted n [] = n ∷ []
insert_sorted n (m ∷ names) =
    let rest = insert_sorted n names in if is_lt (compare m n) then m ∷ rest else n ∷ m ∷ names

unfoldable pub sorted : List String → List String
unfolding insert_sorted
sorted [] = []
sorted (n ∷ names) = insert_sorted n (sorted names)

-- `wait_for_updates` once the event is set; none where it still waits.
unfoldable pub wait_for_updates :
    {Float : Type 0} → Service Float → Option (StateUpdate × Service Float)
unfolding sorted
wait_for_updates s =
    if s.is_update_event_set
    then some (
      record { device_ids = sorted s.dirty_devices; group_ids = sorted s.dirty_groups },
      record s { dirty_devices = []; dirty_groups = []; is_update_event_set = false },
    )
    else none
