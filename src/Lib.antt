-- ===== src/Lib.antt =====
-- Verification of the GoodWe wallbox integration for Home Assistant
-- (custom_components/sems_wallbox).
--
-- The integration controls a wallbox through the vendor's cloud (SEMS) or, natively, through a TCP
-- connection that the wallbox opens to Home Assistant. The parts modelled here decide what is sent
-- to the wallbox, when, and what is believed of its answers:
--
-- - NativeProtocol (native_protocol.py): frames, the stream decoder, status reports, commands.
--   Frame, Decoder, Command and Status hold the definitions; Drain, Stream, RoundTrip and Commands
--   the proofs. Bytes are numbers below 256.
-- - SessionGuard (native_session_guard.py, NativeSessionGuard): the supervision of the measured
--   power during a native session, and the protective Stop. Defs has one function for each method;
--   the two asyncio tasks of the object are fields of its state. Trace gives the runs, Invariant
--   what all runs keep, Safety, Allowances and Reduction the properties.
-- - ChargeModePolicy (charge_mode_policy.py, ChargeModePolicy): selection of the mode and its
--   verification before a Start. World has the state and a monad for the coroutines: an
--   environment `env` answers the n-th await by `env n`, which also says what the other tasks did
--   to the object meanwhile (a Stop or another choice, a power request, closing) and how long it
--   took; while the lock is free it may also change the mode and the power to keep. Verify is
--   `_verify_inner`, Start `async_start` and `async_stop`, Settings the operations on the intent.
--   Monad has the reasoning about runs; Polling, Against and Verified prove the verification;
--   Attempt and Started the Start; Selected the selection of a mode; Fenced the setting writes;
--   Entry how the entities reach the policy.
-- - WriteConfirmation (write_confirmation.py, WriteConfirmation): the bounded readback after
--   controls. Match is `matches`, Defs the pending choices and `_schedule`, Schedule the reads and
--   the refresh; Judged, Watched, Operations and Bounded prove the deadline, Shown and Confirmed
--   what a confirmation rests on, Outdated and Tickets what becomes of an older choice; Decorators
--   has `confirm_write` and `confirmation_read`.
-- - AutomaticFallback (native_fallback.py, AutomaticFallback): the handover between cloud and
--   local connection. State has the fields and what the awaits of a tick can meet, Tick `tick`,
--   `_handover` and `_run`, Permitted and Handover the property.
-- - LatestIntent (native_intent.py, LatestIntent): the choices that wait for a verified transport.
--   Defs is `submit` and the queue, Run the task cut at its awaits; Retained, Timely, Expiry and
--   Replay are the proofs.
-- - CloudPushPolling (cloud_push_polling.py, and report_age of native_fallback.py): the longer
--   polling interval while a telemetry stream is verified. Defs has its operations, Count and
--   Trust the proofs.
-- - ObservedState (observed_state.py): what a report says about the session and the vehicle. Defs
--   has the functions, Agreement the proofs.
-- - Endpoint (native_endpoint.py, EndpointManager): Socket A of the wallbox, redirected to Home
--   Assistant and given back. Address has the endpoint texts, Device one management session over
--   an interface for the wallbox, Manager the journal and the operations. Change, Confirmed and
--   Foreign prove what a session does; Journaled, Cooperative, Restored and Accepted the
--   properties.
-- - CloudRequests (cloud_rate_limit.py, operation_budget.py, cloud_observation.py): the cooldown
--   that all requests to the cloud share, the time they may take, and the read of timestamped
--   telemetry. Budget and Gate have the definitions, Timeouts, Sends, Kept, Cooldown and Wait the
--   proofs; Observation is the read.
-- - ControlFallback (native_control_fallback.py, ControlFallback): a control that the cloud cannot
--   carry out is moved to TCP. State has what it shares with the other tasks, Prepare `submit`,
--   `_prepare` and `close`, Recover `recover_control`; Awaits, Carried and Routed prove the
--   recovery, Handed and Prepared the preflight.
-- - NativeReports (native_energy.py, native_configuration.py, native_faults.py,
--   native_power_limits.py, native_start_verification.py): Storage, Faults, Power and Window have
--   the definitions; FaultBits is about the bits of a fault report.
-- - ModeAdapter (charge_mode_adapter.py, ModeTransportAdapter): the reports that ChargeModePolicy
--   verifies a mode with. Report has what is read of a report, Read `read` and `write_mode`, Stop
--   `_confirm_stopped`, Idle a proof about `read`.
-- - Prelude: shared names, lists, dictionaries, texts, and the values of the dynamic language.
--
-- How the parts interact: LatestIntent runs the operations that ChargeModePolicy serialises, and
-- its submissions supersede what the policy has in flight (`invalidate`, an interruption in
-- World). AutomaticFallback and ControlFallback make their handovers as setting writes of the
-- policy, and the reports that the policy verifies come from ModeAdapter. In AutomaticFallback the
-- lock is an await that can end in an exception; it reads the session through ObservedState and
-- the phase of the SessionGuard, which supervises what NativeProtocol decodes. All requests to the
-- cloud pass the gate of CloudRequests. A handover activates the Endpoint. Each `Examples` module
-- runs a part on concrete values.
--
-- Units: times are ms, and microseconds in CloudRequests; native powers are W, those of
-- ChargeModePolicy mW; floats count millionths, those of a power limit trillionths.
--
-- Loops: the polling of a verification and the rounds of a Start run on fuel. A round of the
-- polling sleeps for the interval, so that `timeout + 1` rounds are enough for an interval of 1 ms
-- or more; a round of a Start awaits, so that `timeout + 2` are enough if every await takes 1 ms
-- or more. The stream decoder recurs on the length of its buffer. The reconciliation of a control
-- takes its waiting time as fuel, the wait for the lock of a request what is left of its budget.
-- Running out of fuel would be the outcome `stuck`, which the properties of these loops exclude. A
-- retry of a handover in ControlFallback has any number of rounds, after which its timeout
-- strikes.
--
-- Not modelled: HTTP, MQTT, sockets, storage and Home Assistant itself, which the awaits stand
-- for; log messages, diagnostics and the texts of errors; the entities and forms; the native
-- transport and the SEMS API. Python's float of a text is an argument (`parse`), and so is the
-- time that a report's text stands for.
mod Prelude
pub mod NativeProtocol
pub mod SessionGuard
pub mod ChargeModePolicy
pub mod WriteConfirmation
pub mod AutomaticFallback
pub mod CloudPushPolling
pub mod LatestIntent
pub mod ObservedState
pub mod Endpoint
pub mod CloudRequests
pub mod NativeReports
pub mod ControlFallback
pub mod ModeAdapter
