-- ===== src/Mqtt/Service/Release.antt =====
-- What an observation makes of a group's status in mqtt/service.py.
use jebao_flow_engine.Base.{◌≡◌, Bool, false, some, String}
use jebao_flow_engine.Base.Dict.{lookup}
use jebao_flow_engine.Floats.{Floats}
use jebao_flow_engine.Mqtt.Models.{GroupStatePayload}
use jebao_flow_engine.Mqtt.Service.{Service, is_emergency_stop}

-- A group that is not in emergency stop.
abbrev IsReleased : {Float : Type 0} → Service Float → String → Type 0
IsReleased {Float} s group_id =
    (group : GroupStatePayload Float) × (lookup group_id s.states ≡ some group)
    × (is_emergency_stop group.status ≡ false)
