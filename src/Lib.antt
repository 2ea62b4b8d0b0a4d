-- ===== src/Lib.antt =====
-- Jebao Flow Engine: a daemon that drives aquarium pumps over the LAN and offers groups of them
-- to Home Assistant over MQTT. This library models its core and proves what makes it correct.
--
-- The parts, with paths from the repository's root, and how they interact:
--   Protocol/Codec (src/jebao_flow/protocol/codec.py): the frames of the pumps' protocol.
--     `encode_varint`, `decode_varint`, `encode_frame`, `decode_frame` and `read_frame` keep their
--     names; bytes are lists of numbers, a stream is the list of the bytes still to come.
--   Protocol/Schema, Protocol/Profiles and Protocol/Control (protocol/schema.py, profiles.py,
--     control.py): status buffers are decoded by, and control payloads are built from, the
--     datapoints of a product's schema; the profiles are the schemas of the known products.
--   Protocol/Session (protocol/session.py): the authenticated connection to one device. `exchange` writes a
--     request and reads frames until an expected one; `authenticate`, `heartbeat`, `read_raw_state` and
--     `send_raw_control` are built on it. `await_frame` is the loop of `_exchange`.
--   Protocol/Discovery (protocol/discovery.py): parsing of the datagrams that answer a broadcast, and the
--     collecting endpoint. Protocol/Schedule (protocol/schedule.py): the timers of a device, read from the
--     same status buffer as its state.
--   Devices/Lan (devices/lan.py): the adapter that turns logical targets into control payloads, waits out
--     the command interval, writes and reads back. It works on any session that offers the operations of
--     Devices/RawSession, and on a loop clock; Devices/Gizwits fills that interface with Protocol/Session.
--     Devices/Factory (devices/factory.py) makes the adapters, Devices/Registry (devices/registry.py) keeps
--     them, Devices/Simulator (devices/simulator.py) stands in for a device.
--   Devices/Observer (devices/observer.py): Bindings decides which discovered device is which configured
--     one, Reports holds the last reported states, Journal the history of reported events.
--   Safety (safety/limits.py): clamping of a requested power to limits.
--   Groups and Patterns (groups/models.py, groups/calculator.py, patterns/): the target of each
--     member of a group at a time. A pattern asks for powers, `member_target` clamps them.
--   Config (config.py): the configuration records and the checks across them.
--   Mqtt/Models and Mqtt/Service (mqtt/models.py, mqtt/service.py): the service that owns the desired
--     state. `apply` and `apply_device` handle commands, `record_observer_event` merges what the
--     observer saw, `wait_for_updates` hands out what changed, `start` is the constructor;
--     Mqtt/Service/Description has the snapshots and `system_config`. The service calls the calculator
--     through the interface of Patterns/Interface, which Patterns/Bounds fills.
--   Base: lists over native numbers, bits, bytes, ordered dicts, results, and actions on a state that may
--     raise. Runs: concrete runs.
--
-- Conventions. An exception is a value of Base/Result. In most modules an operation answers `ok` with the
-- new state or `err`, and the state behind an exception is not modelled; the session, the adapter and the
-- simulator are actions of Base/Action, whose state comes out beside the value or the exception. A method of
-- the service is a function of the configuration, the readings of the clock and the state. A `datetime` and
-- the loop clock are numbers of microseconds. A connection is the bytes that the peer sends until it closes,
-- and a session holds the bytes it has written. Operations run one after the other; the locks of the session
-- and the adapter, which order the input and output of concurrent calls, have no counterpart.
--
-- Python's floats are a parameter, the record Floats, in which `math.floor` and `math.sin` may raise; `divide`
-- is Python's division, which raises on 0. What is used of IEEE comparison, `+ 0.5`, `int()`, zeros and
-- finite numbers is in FloatLaws; Runs/Numbers has an instance of both. The spelling of bytes as text (Spelling), the
-- normalisation of identifiers (`compact`), rounding and printing of values (Numerals) and the reading of a
-- number from a text (`float_text`) are parameters too. LoopLaws says that sleeping lets the clock advance by
-- the delay at least and that input and output do not turn it back.
--
-- Loops are structural, over a list or over a bound that the source fixes: four bytes of a varint, the digits
-- of a datapoint, `max_skipped_frames + 1` frames, the read-back attempts, the slots of a schedule. The loop
-- of `encode_varint` is recursion on the accessibility of its value, so no loop has fuel.
--
-- Not modelled: sockets and the timeouts on them, the MQTT client and its topics, YAML, JSON, logging and the
-- command line, which are input and output; the observer's worker loops with their backoff, and the file
-- behind its journal; the Home Assistant integration, which displays what the daemon publishes; the text
-- patterns of identifiers and the normalisation of addresses in config.py.
pub mod Base
pub mod Protocol
pub mod Floats
pub mod Groups
pub mod Patterns
pub mod Safety
pub mod Config
pub mod Mqtt
pub mod Devices
pub mod Runs
