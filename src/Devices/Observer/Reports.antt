-- ===== src/Devices/Observer/Reports.antt =====
-- What the observer of devices/observer.py reports of a device: the events for its sink, and the
-- records of its journal.
use jebao_flow_engine.Base.{
  ℕ, Bool, not, ◌&&◌, Option, none, some, List, [], ◌∷◌, ◌++◌, String, str_eq, any, keep,
  if◌then◌else◌, option_eq, ◌==◌,
}
use jebao_flow_engine.Base.Dict.{Dict, lookup, insert}
use jebao_flow_engine.Devices.Observer.{ObserverEvent, online, offline}
use jebao_flow_engine.Mqtt.Service.Merge.{dict_eq, schedule_configuration_eq}
use jebao_flow_engine.Protocol.Models.{DeviceState}
use jebao_flow_engine.Protocol.Value.{bool_eq}

pub data JournalEvent : Type 0 where
  first_seen recovered state_changed went_offline : JournalEvent

-- The arguments of `JsonlObservationJournal.append`.
pub record JournalRecord : Type 0 where
  pub event : JournalEvent
  pub device_id : String
  pub occurred_at : ℕ
  pub previous : Option DeviceState
  pub current : Option DeviceState
  pub error : Option String

-- `_last_states` and `_offline`, the events for the sink, and the calls of the journal, in order.
pub record Observer : Type 0 where
  pub last_states : Dict DeviceState
  pub offline_ids : List String
  pub events : List ObserverEvent
  pub journal : List JournalRecord

abbrev pub is_offline : String → Observer → Bool
is_offline device_id o = any (str_eq device_id) o.offline_ids

-- `set.discard` and `set.add`
abbrev pub discard : String → List String → List String
discard id ids = keep (λ other. not (str_eq id other)) ids

abbrev pub add : String → List String → List String
add id ids = if any (str_eq id) ids then ids else id ∷ ids

-- `_state_signature(a) == _state_signature(b)`
unfoldable pub signature_eq : DeviceState → DeviceState → Bool
signature_eq a b =
    bool_eq a.enabled b.enabled
    && a.power == b.power
    && str_eq a.mode b.mode
    && option_eq ◌==◌ a.frequency b.frequency
    && option_eq str_eq a.error b.error
    && dict_eq a.observed_attributes b.observed_attributes
    && schedule_configuration_eq a.schedule b.schedule

unfoldable pub append : JournalRecord → Observer → Observer
append r o = record o { journal = o.journal ++ (r ∷ []) }

-- The journal's part of `_report_state`.
unfoldable pub journal_state :
    String → DeviceState → Option DeviceState → Bool → Observer → Observer
unfolding append signature_eq
journal_state device_id state none was_offline o =
    append
      (record {
        event = first_seen;
        device_id = device_id;
        occurred_at = state.observed_at;
        previous = none;
        current = some state;
        error = none;
      })
      o
journal_state device_id state (some previous) was_offline o =
    if was_offline
    then append
        (record {
          event = recovered;
          device_id = device_id;
          occurred_at = state.observed_at;
          previous = some previous;
          current = some state;
          error = none;
        })
        o
    else if not (signature_eq previous state)
    then append
        (record {
          event = state_changed;
          device_id = device_id;
          occurred_at = state.observed_at;
          previous = some previous;
          current = some state;
          error = none;
        })
        o
    else o

unfoldable pub report_state : String → DeviceState → Observer → Observer
unfolding journal_state
report_state device_id state o =
    journal_state device_id state (lookup device_id o.last_states) (is_offline device_id o)
      (record o {
        offline_ids = discard device_id o.offline_ids;
        last_states = insert device_id state o.last_states;
        events =
            o.events
            ++ (record {
              device_id = device_id;
              status = online;
              occurred_at = state.observed_at;
              state = some state;
              error = none;
            }
                ∷ []);
      })

-- The journal's part of `_report_offline`.
unfoldable pub journal_offline : String → String → ℕ → Bool → Observer → Observer
unfolding append
journal_offline device_id error now was_offline o =
    if was_offline
    then o
    else append
        (record {
          event = went_offline;
          device_id = device_id;
          occurred_at = now;
          previous = lookup device_id o.last_states;
          current = none;
          error = some error;
        })
        o

-- The reading of the clock is an argument.
unfoldable pub report_offline : String → String → ℕ → Observer → Observer
unfolding journal_offline
report_offline device_id error now o =
    journal_offline device_id error now (is_offline device_id o) (record o {
      offline_ids = add device_id o.offline_ids;
      events =
          o.events
          ++ (record {
            device_id = device_id;
            status = offline;
            occurred_at = now;
            state = none;
            error = some error;
          }
              ∷ []);
    })
