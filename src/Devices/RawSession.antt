-- ===== src/Devices/RawSession.antt =====
-- What a device adapter needs of the world: the class `RawSession` of devices/lan.py, and the clock of
-- the event loop. A state of the world goes through each call; times are numbers of microseconds.
use jebao_flow_engine.Base.{ℕ, ◌+◌, ◌≤◌, Bool}
use jebao_flow_engine.Base.Action.{Action}
use jebao_flow_engine.Base.Bytes.{Bytes}

pub record RawSession (S : Type 0) : Type 0 where
  pub connected : S → Bool
  pub connect : Action S (Unit {0})
  pub disconnect : Action S (Unit {0})
  pub authenticate : Action S Bytes
  pub read_raw_state : Action S Bytes
  pub send_raw_control : Bytes → Action S Bytes

-- `loop.time()` and `asyncio.sleep`
pub record Loop (S : Type 0) : Type 0 where
  pub time : S → ℕ
  pub sleep : ℕ → S → S

-- The loop's clock is monotonic, and a sleep takes as long as asked at least.
pub record LoopLaws {S : Type 0} (session : RawSession S) (loop : Loop S) : Type 0 where
  pub sleeps : (delay : ℕ) (s : S) → loop.time s + delay ≤ loop.time (loop.sleep delay s)
  pub reads : (s : S) → loop.time s ≤ loop.time (session.read_raw_state s).1
  pub sends :
      (payload : Bytes) (s : S) → loop.time s ≤ loop.time (session.send_raw_control payload s).1
