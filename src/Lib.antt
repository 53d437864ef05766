-- ===== src/Lib.antt =====
-- Verification of XboardNode-Plus, the node agent that runs a proxy kernel (sing-box or xray) for an
-- Xboard panel.
--
-- The program. The panel sends a node its configuration and its users, over REST or as push events.
-- In machine mode one push connection serves several nodes, and a mailbox joins the events of a node
-- that is not ready (internal/controlplane/mailbox.go). The service's main loop
-- (internal/service/service.go) checks and applies users, drives the kernel, reads the kernel's
-- counters into the tracker (internal/tracker/tracker.go) every tick, and reports traffic and
-- connected devices to the panel in goroutines that may fail. The limiter (internal/limiter) holds
-- device and speed limits, and the xray dispatcher (internal/kernel/xray/dispatcher.go) admits or
-- refuses connections by them.
--
-- The files.
--   Prelude       helpers: byte strings, Go maps as association lists, 64-bit patterns, sorting,
--                 strings.TrimSpace, strings.ToLower
--   Panel         internal/panel/types.go: the wire types
--   Model         internal/model/types.go, custom_route.go and the CertConfig of
--                 internal/config/config.go; Model/Conversion is internal/model/panel.go
--   Validation    the checks of a node specification in internal/model: Kernels and Spec
--                 (validate.go), Ports and Rules (custom_route_validate.go,
--                 custom_route_support.go), Outbounds (custom_outbound_validate.go,
--                 custom_outbound_support.go), Tags (custom_config_tags.go)
--   Tracker       internal/tracker/tracker.go, method by method
--   Kernel        UserDiff of internal/kernel/kernel.go
--   ControlPlane  Event of internal/controlplane/types.go; Clone, Delta and Mailbox are the parts of
--                 internal/controlplane/mailbox.go
--   Dispatcher    the counting and the admission of connections in
--                 internal/kernel/xray/dispatcher.go
--   ConnTracker   internal/kernel/singbox/conntracker.go: the statistics of the users, the readings
--                 and checkDeviceGate
--   Limiter       internal/limiter/limiter.go, with Limiter/Speed for speedtracker.go
--   Service       internal/service/service.go: Users (mergeUsers, subtractUsers, rejectFetchedUsers),
--                 Backoff (apiBackoff), Reporting (trackAndEnforce, pushReportAsync,
--                 pushAccessAsync, sendDeviceBatch), Runtime (validateNodeRuntime), Core (the state
--                 of the main loop, startKernel, ensureRunning) with Core/Users (applyUserUpdate,
--                 applyUserDelta), Core/Config (applyChanges, the overrides), Core/Events
--                 (handleWSEvent, applyPullResult), Core/Polling (the polls of the panel) and
--                 Core/Setup (initialSetup, drainMachineMailbox, handleWSStatus)
--   AccessLog     internal/accesslog/access.go
--   Build         the configurations that the kernels are given: the maps and their laws, and what
--                 both kernels share (internal/kernel/customcfg.go, geo.go,
--                 custom_route_compile.go); Build/SingBox is internal/kernel/singbox/config.go and
--                 Build/Xray is internal/kernel/xray/config.go, each with Routes, Inbound, Merge and
--                 Safety, and with Outbounds, Fallback and Tls or with Stream
--   Machine       internal/machine/machine.go: the nodes of a machine, their services and mailboxes
--   Standalone    internal/config/standalone.go and internal/model/standalone.go: a node without a panel
--   Tests         the samples, and each theorem applied to them
--
-- How the code is read. A struct is a record and a method a function of the state; a mutex makes a
-- method one step. Functions keep their names, in lower case. checkDeviceLimit, which works under two
-- locks, is two functions, `route` and `admit`, between which another call can stand. A Go map is an
-- association list without repeated keys, whose order stands for one order of iteration: a theorem
-- about every list is about every order. A slice or a map that can be nil is an Option, `none` for nil.
-- An `int` or `int64` is its 64-bit pattern, with wrap-around written out. Strings are lists of bytes;
-- strings.ToLower maps their runes by the table of Unicode 15, strings.TrimSpace knows its spaces.
-- A goroutine that reports is the payload in flight and a later event that ends it, with success or
-- not. An error is a value whose constructor stands for its text. Times are numbers of nanoseconds.
-- SHA-256 and the hashes of configurations and users, the token bucket of golang.org/x/time/rate, the
-- kernel (the interface of internal/kernel/kernel.go), the certificate manager, the files and
-- decoders of the custom configuration and the table of DNS providers are parameters; the rules that
-- a theorem asks of the kernel, which are those that both kernels keep when a start or an update
-- fails, are the record Laws of Service/Core/Serving. What the builders of the kernels' configurations
-- call of the standard library and of other modules is the record Library of Build/Library. A configuration is a map of the dynamic types that the builders use, where a nil
-- slice is an empty one; a builder that changes its map in place is a function of the map. All loops
-- are structural recursion; no fuel is used.
--
-- Not modelled: the command line tools (cmd), certificates (internal/cert), configuration files
-- (internal/config, but for CertConfig, KernelConfig and standalone.go), logging, host metrics, the
-- REST and WebSocket clients (internal/panel/client.go, ws.go), the JSON decoding of the wire types, the
-- kernels themselves, the discovery of the push connection, the wrapped
-- connections of the sing-box kernel, the push connection of a machine and its reports on the host,
-- and the logs of accesses that the kernels keep. The warnings that the builders of
-- configurations log are left out.
pub mod AccessLog
pub mod Build
pub mod Machine
pub mod Standalone
pub mod Validation
pub mod Prelude
pub mod Panel
pub mod Model
pub mod Tests
pub mod Tracker
pub mod Kernel
pub mod ControlPlane
pub mod Dispatcher
pub mod ConnTracker
pub mod Limiter
pub mod Service
