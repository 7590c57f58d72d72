-- ===== src/Lib.antt =====
-- Verification library of compose-monitor, a service that watches the containers of one Docker
-- Compose project, shows them on a web page and lets a user act on them.
--
-- The parts of the program and the files that model them, each with its path in the repository:
--
--   internal/domain                Domain.antt, Domain/Detail.antt: the entities, a record for each
--                                  struct and a data type for each enumeration; Domain/Labels.antt:
--                                  GroupLabels.
--   internal/ports                 App/Ports.antt: each interface is a record of calls on a world.
--   internal/app/monitor_service.go
--                                  App/Snapshot.antt: Summarize, IndexServices, SortServices, Changed,
--                                  Notable and DiffSnapshots; App/Monitor.antt: the methods of
--                                  MonitorService; App/Monitor/Watch.antt: its loop, Run.
--   internal/app/network_service.go, internal/app/volume_service.go
--                                  App/Networks.antt and App/Volumes.antt.
--   internal/adapters/realtime/hub.go
--                                  Realtime/Hub.antt: Hub, with its channels in a store.
--   internal/adapters/docker       Docker/Client.antt: the methods of Client on the runtime's API, that
--                                  make it the source and the control of App/Ports.antt;
--                                  Docker/Reconnect.antt: Watch and stream; Docker/Mapping.antt,
--                                  Docker/Ports.antt and Docker/Status.antt: mapping.go and status.go;
--                                  Docker/Routing.antt: routing.go; Docker/Inspect.antt,
--                                  Docker/Bindings.antt and Docker/Redaction.antt: inspect.go;
--                                  Docker/Logs.antt: logs.go; Docker/Resources.antt: networks.go and
--                                  volumes.go.
--   internal/adapters/realtime/handler.go, internal/adapters/realtime/renderer.go
--                                  Realtime/Stream.antt: the event stream, from its subscription on.
--   internal/adapters/web/services/handlers/handler.go
--                                  Web/Services.antt: the pages; Web/Actions.antt: the actions;
--                                  Web/Returning.antt: backWhereItWas, with what it uses of net/url;
--                                  Web/Pages.antt: what the handlers of all sections answer.
--   internal/adapters/web/networks/handlers/handler.go, internal/adapters/web/volumes/handlers/handler.go
--                                  Web/Resources.antt.
--   internal/adapters/web/overview/handlers/handler.go, internal/adapters/web/health/handlers/handler.go
--                                  Web/Front.antt.
--   internal/adapters/web/shared/templates/keys.go
--                                  Web/Keys.antt: sort keys, labels, images and trails;
--                                  Web/Sizes.antt: FormatSize.
--   internal/adapters/web/shared/templates/row_templ.go, badges_templ.go
--                                  Web/Row.antt: the markup of a row, which the pages and the stream share.
--   internal/config                Config.antt: the records, their methods, Load and MustLoad.
--   cmd/server/main.go             Server.antt: the services that run wires, the routes, and probe.
--
-- The Docker client lists the containers of the project. MonitorService compares each listing with
-- the one before and publishes the differences through the hub, which hands them to the pages that
-- are open: the handler of the stream subscribes, writes the listing as its first frame and each
-- change as a further one. The actions check the target in a fresh listing, call the client and read
-- again. NetworkService and VolumeService decide what may be removed by the client's counts.
--
-- How the code is written down:
--
--   * A port works on a world of its own, any type W. A call is W → Result A × W: it may change the
--     world and succeed or fail as it likes, so a theorem holds for whatever the runtime does.
--   * A Go string is the list of its bytes. Counts and replica numbers, which are never negative, are
--     native natural numbers; other numbers of type int are integers. A time.Time is an instant, in
--     nanoseconds since the zero time. Log calls are left out, and so are contexts, but where the end
--     of one is observed.
--   * A Go map is an association list, in any order of iteration: nothing is assumed of that order,
--     and theorems say where the result does not depend on it.
--   * slices.SortFunc is an insertion sort. The library's sort is not stable, so theorems state order
--     and membership, or that only one ordered result exists.
--   * An error is a data type of the ways in which the program builds errors, and errors.Is looks for
--     an error variable in it.
--   * The choice of a select is open: the watch loop is a relation over all its turns. A panic of the
--     hub is none. The hub's methods run under its lock, one after the other.
--   * Regular expressions are written out as functions that find the first match.
--   * A page is the component that is rendered, with its arguments. The rendering of a row for the
--     stream, and the writes to a connection, are calls on the world, which may fail; what a row that
--     was rendered is made of is Web/Row.antt.
--   * encoding/json's strings are written out in Base/Json.antt, and the verb %q of fmt in
--     Base/Quote.antt, byte by byte.
--   * A handler's loop takes the turns of a list, in Realtime/Stream/Shared/Serving.antt between any
--     operations of others on the hub; a receive that would wait is not taken.
--
-- readMultiplexedLog is a loop on fuel, one more than the stream has bytes: every round but the last
-- takes a header of eight bytes. strconv.Itoa has as much fuel as the number it writes. The loop of
-- FormatSize has fuel for seven rounds: an int64 below 2 ^ 63 is divided by 1024 six times at most.
-- The unit in the last place of a float64 is found in ten doublings, since such a number has ten
-- bits more than the 53 that are kept.
--
-- Parameters are the API of the container runtime, time.Parse on RFC 3339, the Unicode tables of
-- strings.ToUpper and strconv.IsPrint for a text that is not ASCII, the check that url.Parse makes of an authority, the
-- rendering of a row and the connection of a stream, and for a row templ's escaping and list of
-- classes and the embedded icons. No hypothesis is made of them, but in three places: the page that
-- is shown has a connection that keeps what is written, rows that are drawn as the same markup each
-- time and texts that are UTF-8; the markup of a row has an escaping that leaves no bracket and no
-- quotation mark, and icons that close what they open; and the networks of a listed container, which
-- are counted, are a map.
--
-- Not modelled: the other views of internal/adapters/web, which templ generates to lay values out,
-- the icons and the static files; FormatTime and FormatLogTime, which need a calendar and a time
-- zone; reading the environment, which a library does; signals, goroutines, logging and the
-- shutdown of the HTTP server in cmd/server; and the interleaving of two calls of MonitorService,
-- which publish outside its lock.
pub mod Base
pub mod Config
pub mod Domain
pub mod App
pub mod Realtime
pub mod Docker
pub mod Web
pub mod Server
pub mod Tests
