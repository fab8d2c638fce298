-- ===== src/Lib.antt =====
-- Models of the Edge Telemetry Daemon (the Go program of this repository) and theorems about them.
--
-- The daemon scrapes CPU and memory use. On each tick of cmd/agent/main.go the agent feeds the reading
-- to the detector (internal/engine), gives the verdict to the suppressor (internal/filter), sets the
-- CPU quota (internal/cgroup) for the suppressor's state, logs the reading in a ring buffer and in the
-- heartbeat aggregator (internal/filter), pushes events to the outbox (internal/outbox) and to
-- subscribers, and computes when to tick next. The workers of the dispatcher (internal/transport) pop
-- the events and post them. internal/config reads the configuration.
--
-- Where each part is, and how it corresponds to the code:
--   Outbox: internal/outbox/queue.go. `Outbox` is the struct behind the mutex. `push`, `pop_enter`,
--     `wake_token`, `wake_closed`, `receive_token` and `close` are the critical sections of Push, Pop
--     and Close; Workers has the step relation `Step` that interleaves them, with workers that wait.
--     Fifo is the bounded queue that Refine compares with; Inv and Account have the invariants.
--   Filter.RingBuffer, Filter.Suppressor, Filter.Heartbeat: ringbuffer.go, suppressor.go and
--     heartbeat_aggregator.go in internal/filter. A method is a function on the struct's record.
--   Engine.Ewma, Engine.Stats, Engine.Welford, Engine.Detector: ewma.go with saturation.go, stats.go,
--     welford.go and detector.go in internal/engine.
--   Cgroup: internal/cgroup/cgroup.go, the controller with the contents of cpu.max; Cgroup.Discover
--     has discoverCgroupPath and Cgroup.Stat ReadCPUStat with parseCPUStat. Cgroup.Other and
--     Collector.Other are the stubs of other systems.
--   KernelFile: the code that scrapeProcPath, CollectMem and ReadCPUStat share, which builds a path in
--     a buffer on the stack and reads the file with raw system calls.
--   Collector: internal/collector/cpu_linux.go, the parser of the first line of /proc/stat;
--     Collector.Mem is mem_linux.go and Collector.Generator mock_ai.go.
--   Metrics: internal/metrics/prometheus.go. A metric is its 64-bit word; Metrics.Adders has threads in
--     the compare-and-swap loop of Add, Metrics.Registry the registry and its text.
--   Http: cmd/agent/main.go, the handlers of newMux that answer from the daemon's state; Http.Mux has
--     newMux with the server's handler around it and startUDSServer, Http.Stream what the event streams
--     write.
--   Config: internal/config/config.go, Load with its getters and validate.
--   Transport: internal/transport/dispatcher.go, the request, the retry loop and the worker's loop.
--     Transport.Pool has the three workers of Run over one outbox: `Move` is a step of one of them, a
--     section of Pop or a whole dispatch; its children have what becomes of the events, and how Run ends.
--   Agent: cmd/agent/main.go, newAgent, tick and the handlers that it calls; Agent.State has the data,
--     Agent.Usage collectUsage, Agent.Emit the subscribers and the emitted events, Agent.Pace the
--     interval; Agent.Events and Agent.Drift have theorems on the events.
--   Daemon: cmd/agent/main.go, main. `start_up` is main up to its loop, and `Step` the step relation of
--     everything that then happens: the steps of ticks, subscribers, injected anomalies, steps of the workers, a
--     signal, and main's way out through wg.Wait to the close of the outbox. Daemon.Requests has what
--     requests and connections do to it, Daemon.Watch the life of one subscriber's channel.
--   Shared: the helpers. Shared.Int has Go's 64-bit int and durations, Shared.Time instants,
--     Shared.Float the interface of float64 with the laws that theorems ask for, Shared.Fixed an
--     instance of it for tests, Shared.Window the lemmas on a circular array,
--     Shared.Scan the parsers' loops over bytes and lines with its lemmas, Shared.Decimal numerals.
--
-- Conventions. A mutex makes a method one step. A tick is several: what it does up to its events, which
-- only its own goroutine sees, then for each event the push and the broadcast, then the reset of main's
-- ticker; `tick-Reach` in Daemon.Ticks shows that they make up `tick`. The sends of one broadcast are one
-- step, since they are done under the lock of the subscribers and a receive from one channel commutes with
-- the sends to the others. A uint64 wraps at 2^64 (`inc64`) and an int at 2^63
-- (`inc_int`); theorems that need less say so. Floats are a parameter, whose order is IEEE 754's where
-- a theorem takes `IsOrdered`. Clocks, the network, timers, random numbers, the environment, file
-- writes and the encodings of the standard library are arguments.
-- The retry loop counts the rounds that MaxRetries allows and so ends by itself. The loop over the
-- lines of a file runs on fuel, as many rounds as the file has bytes: each round takes a byte at least,
-- so it comes to the end, as `scan_lines-over` in Shared.Scan.Lines shows.
-- An anomaly is injected before or after what a tick reads, so the compare-and-swap in collectUsage succeeds at once.
--
-- Not modelled: the bytes of the connections and the settings of the servers, the logger and the signals,
-- which are libraries'; the socket's file; the system calls and the probe of cpu.max, whose results are
-- arguments; and logging. A stream's write deadline is what makes a write fail, which is an argument. The
-- second Done of the dispatcher's goroutine is a step to a state of its own, after which the process is
-- gone; handlers that go on there, or after main's return, are runs that the program does not have.
pub mod Agent
pub mod Cgroup
pub mod Collector
pub mod Config
pub mod Daemon
pub mod Engine
pub mod Filter
pub mod Http
pub mod KernelFile
pub mod Metrics
pub mod Outbox
pub mod Shared
pub mod Transport
