-- ===== src/Lib.antt =====
-- A verification library of statehouse: the part of the program that turns readings of devices into
-- device activity, energy, availability and the state of the house, and the part that decides which
-- requests may read it.
--
-- The program. Adapters (internal/adapter) parse the payloads of an MQTT broker and call the engine
-- (internal/state/engine.go). The engine finds the device's entry in the store, lets the device's
-- runtime (internal/device/statemachine.go) take the reading, which also drives the two energy paths
-- (internal/energy), copies the result to the public record, emits derived events, and derives the
-- state of the house (internal/state/house.go) and its electricity (internal/state/electricity.go,
-- engine_electricity.go) anew. A ticker lets time-driven changes mature. A device that appears is classified by the resolver
-- (internal/device/profiles.go) from the configuration (internal/config/config.go). The HTTP API
-- (internal/httpapi) serves the result behind two middlewares: cors.go, which answers by the allowlist
-- of internal/origin, and auth.go, which asks for a bearer token.
--
-- The modules.
-- Time            time.Time as nanoseconds since the zero time, time.Duration as an integer; Sub
--                 saturates at int64 as documented.
-- Prelude         Float64 stands for Go's float64: a type with the operations that the program calls.
--                 No law of arithmetic is assumed; a theorem that needs one takes it as a hypothesis.
--                 Strings are lists of bytes.
-- Strings         what the program uses of Go's strings package; the Unicode tables are a parameter.
-- Origin          internal/origin/origin.go: Compile, Allow and the parsing of origins; Go's net is a
--                 parameter. Compile returns its policy beside its error, as in the source. Patterns
--                 describes what one entry covers, without the rule that it compiles to.
-- Config          internal/config/config.go: the settings that are read here, and Validate.
-- Http            internal/httpapi: Auth (auth.go), Cors (cors.go), Server (handler and
--                 authMiddleware of server.go) and Documents (dto.go). A handler maps a request, the headers set so far and
--                 the counters to a reply and the counters.
-- Adapter         internal/adapter: Timestamps (timeutil), Validate (validate) and Intercom, whose
--                 messages assert and clear signals of the engine.
-- Model           the records of internal/model (state.go, reading.go, signal.go, identity.go,
--                 activity_record.go): a pointer that may be nil is an Option.
-- Energy          internal/energy: Counter, Integration (Integrator), Strategy (SelectKWh,
--                 DivergencePct).
-- Device          internal/device: Class, Profile, Hints and Resolver (profiles.go, staleness.go),
--                 Runtime, Hysteresis (maybeBegin, maybeEnd) and Steps (the class steps, OnReading, Tick) of
--                 statemachine.go; Reload has what EnsureDiscovered does to a known runtime.
-- State           internal/state: ActivityLog (activity_log.go), SignalStore (signal_store.go), House
--                 (house.go), Electricity (electricity.go, engine_electricity.go), Store (the entries
--                 and indexes of store.go), Availability and Entry (the bodies that engine.go runs on
--                 an entry under the store's lock, and the kinds of events that follow), Discovery
--                 (EnsureDiscovered over the store), Canonical (emitCanonicalForReading) and Presence
--                 (IngestSignal, ClearSignal, the activity log's calls and RecomputeHouse with
--                 setHouse).
-- Examples        concrete devices at which the theorems are applied.
--
-- A method that writes through a pointer is a function to the new value. Each method of a store, and
-- each body that the engine runs on an entry, holds its lock throughout and is one step here; sequences of calls are lists. Go visits maps in an arbitrary
-- order, so a map that is only visited is a list in the order of the visit, and the theorems hold for
-- every list. A runtime, its outcome and the device share a *Cycle in the source; each is read before
-- the next write, and the model copies the value at the places where the source's copy is made.
--
-- Bounds. The activity log has its 50 slots. Counts (finishedLowCount, gaps, activeCount) are natural
-- numbers: the first is cleared at 3, and the others grow by one a call and cannot reach 2 ^ 63. Every
-- loop runs over a list or counts down the records held, so no fuel is used.
--
-- Not modelled: the Meta maps, the ids, texts and evidence of events, the parsing of configuration, the adapters of sensors, MQTT, InfluxDB and history.
-- Thresholds and device entries come from a schema shared with another repository, and have the fields
-- that the program reads. The parsers of tokens, base64, JSON, RFC 3339 and IP addresses, the table of
-- routes of net/http, the time zone database and the Unicode tables are parameters.
pub mod Prelude
pub mod Strings
pub mod Origin
pub mod Config
pub mod Http
pub mod Adapter
pub mod Time
pub mod Energy
pub mod Device
pub mod Model
pub mod State
pub mod Examples
