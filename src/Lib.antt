-- ===== src/Lib.antt =====
-- labdns: verification of the controllers that publish DNS records for annotated Kubernetes sources.
--
-- The program watches Ingresses and Gateway API routes. For each source a controller inherits and
-- parses annotations, projects the source to host names with backends, resolves the backends to the
-- addresses of their Nodes, and hands one publication per DNS provider to the writer. The writer keeps
-- one DNSEndpoint object per source and provider. A target that is no longer wanted stays in the
-- object until a deadline, which a lifecycle annotation of the object stores; a second controller
-- removes it when the deadline has passed.
--
-- Files and the code that they follow:
-- - Base and its children: texts, sets, maps and sorting as Go's standard library has them, with the
--   lemmas that the components share; Base/Results has Go's pairs of value and error.
-- - Platform: what is used of other code (JSON, RFC 3339 stamps, durations, SHA-256, DNS-1123 names),
--   as the record `Platform`, with the documented behaviour as the record `Laws`.
-- - Source/Types, Source/Diagnostics, Source/Projection, Source/Routes:
--   internal/source/projection.go.
-- - Source/Errors: internal/source/errors.go. Source/Names: internal/source/names.go.
-- - Source/Annotations: internal/source/annotations.go.
-- - Source/Resolver, Source/Publications: internal/source/resolver.go, and `providerProperties`.
-- - Dnsendpoint/Lifecycle: internal/dnsendpoint/lifecycle.go.
-- - Dnsendpoint/Endpoints, Naming, Object, Build, Writer, Advance: internal/dnsendpoint/writer.go.
--   `build` is the method of that name; `Writer.apply` is `Apply`, `Advance.advance` is `Advance`.
--   Build/Status is the abstract specification that both implement: each target is absent, active,
--   or retiring until a deadline.
-- - Controller/Sources: internal/controller/source_controller.go. Controller/Emitter:
--   internal/controller/diagnostics.go. Controller/Metrics: internal/controller/metrics.go.
--   Controller/Retirement: internal/controller/lifecycle_controller.go.
--   Controller/Watches: internal/controller/setup.go. Index has the index functions, Mapper the mapping
--   of events to requests, and Reads the cluster that the cache shows.
-- - Cli: internal/cli. Model follows model.go; Records, Controllers and Health follow inspect.go; Dns
--   follows dns.go; Table and Report follow output.go; Commands follows command.go.
-- - Startup: cmd/discovery.go, and `parseLogLevel` of cmd/main.go.
-- - Tests: a platform that satisfies its laws, and runs of the program at it.
--
-- Representation: a Go string is the list of its bytes, and functions of package strings are
-- modelled at ASCII text. Times are nanoseconds since an origin that lies before every instant in
-- use, durations are integers; `Advance` saturates a wait at 2 ^ 63 - 1 as time.Time.Sub does. A Go
-- map is a list of entries in the order of insertion; nil and empty maps and slices are not told
-- apart, but for the active targets of a record that the command line shows. `sort.Slice` is an
-- insertion sort, which agrees with it where the keys differ. Errors are the cases that the code
-- tells apart; their messages are not modelled. Kubernetes reads, writes and the retry on a
-- conflict are parameters, as are the DNS client, package net, API discovery, the JSON encoder and
-- the writer of the command line.
--
-- Fuel: the loops over `start` in `writeTable` and `writeTableBlock` are `write_rows` and
-- `fill_column`. Their fuel is the number of the rows, which is enough since each round takes at least
-- one row; `decimal` has more fuel than its number has digits. All other loops run over a finite list
-- and need none.
--
-- Not modelled: the flags and the help of the commands, `prepare`, which connects to the cluster, and
-- `outputIsTerminal` (internal/cli/command.go); `Setup` and `SetupLifecycle`, which hand the reconcilers
-- and the mappers to controller-runtime (internal/controller/setup.go); `main` (cmd); logging, the
-- texts of most errors, and generated code.
pub mod Base
pub mod Cli
pub mod Controller
pub mod Dnsendpoint
pub mod Platform
pub mod Source
pub mod Startup
pub mod Tests
