-- ===== src/Lib.antt =====
-- A verification library for the tracker server: a family's phones send fixes, and the server tells
-- watchers where each device is, how fresh that is, and when a device enters or leaves a Place.
--
-- The parts, and the file that models each (paths from the repository's root):
--   * Presentation: internal/presentation/presentation.go, the value published for a device
--     (`evaluate` is Evaluate, `age_seconds` AgeSeconds, `sweep_bound` SweepBound).
--   * Store, Store/Geofence: internal/store, the shared rows, and confirmTransitions of geofence.go,
--     the debounced state machine (`confirm_from` is its outer loop, `dwells` its inner one);
--     Store/Geofence/Evaluate is EvaluateDeviceGeofences, which runs it for each Place over the tables
--     of fixes and events; Store/States holds the two reads of presentation.go that the stream
--     polls by; Store/Subscriptions is the table of push endpoints of internal/store/push.go.
--   * Push: internal/push. Push/Ledger is DeliveryLedger, whose mutex makes each method one step;
--     Push/Dispatcher is the bounded queue, its worker and Record; Push/Notify is EventNotifier, which
--     classifies every crossing at every endpoint in the ledger and then offers the deliveries to the
--     dispatcher, which takes back in the ledger what it never hands over.
--   * Server/Presentation: internal/server/presentation.go, what is said of one device and in which
--     order. Server/Stream: the poll of internal/server/stream.go, one open watcher; it evaluates
--     each row by Presentation and describes it by Server/Presentation.
--   * Server/Push: POST /v1/push-subscriptions of internal/server/push.go, which moves an endpoint in
--     that table and tells the dispatcher's ledger.
--   * Db: DropPartitionsBefore of internal/db/partitions.go and the job of internal/retention, over
--     the catalog's list of partitions.
--   * Db/Provision: EnsureMonthlyPartition and EnsurePartitions of internal/db/partitions.go, over
--     the relations that have a partition's name.
--   * Store/Ingest: IngestFix of internal/store/store.go and what it calls, over the table of fixes and
--     the catalog of its partitions, which it extends by Db/Provision.
--   * Server/Ingest: the two ingest routes of internal/server/server.go; a fix that is new goes to the
--     evaluator of Store/Geofence/Evaluate and its crossings to Push/Notify.
--   * Auth, Store/Credentials and Server/Gates: internal/auth, the tokens of internal/store/entities.go,
--     and who reaches which handler.
--   * Store/History and Store/Places: the history and proximity reads of internal/store/read.go and
--     store.go, and the Places of entities.go and geofence.go with the rings that bound them.
--     Store/Crossings is the read of the crossing log.
--   * Push/Senders: the clients of the push backends, internal/push/fcm.go, unifiedpush.go and
--     serviceaccount.go.
--   * Server/Read: the read routes of internal/server/read.go and geofence.go.
--   * Vulngate: internal/vulngate, the report, the recorded suppressions (Vulngate/Suppressions) and the
--     verdict on both.
--   * Config: internal/config/config.go, Load with everything that it refuses; Config/ParseInt is
--     strconv.ParseInt as it is called there.
--   * Clock and Base: instants, machine integers, maps, stable sorting, lists.
--   * Tests: each result at a concrete input.
--
-- State and operations. A record holds the fields of the Go struct that the code changes; an
-- operation takes it and returns it. A Go map is an association list (Base/Dict); an int64 result
-- is written with its wrap-around (`int64`). An instant is a number of nanoseconds since the epoch,
-- and time.Unix wraps as Go's does (`from_unix` of Clock).
-- A failed write ends a stream, so a stream operation returns an `Outcome`. A loop is a recursion
-- over the list it walks, and the retry loop over its remaining attempts, so no definition needs fuel.
--
-- Parameters, for what is not in the repository: `Float` is float64, of which only copies are made;
-- `digest` is the hexadecimal of the first eight bytes of SHA-256; `format_ts` is time.Format;
-- `to_lower` is strings.ToLower, `trim_space` strings.TrimSpace and `str_lt` Go's `<` on strings;
-- `senders` says which attempt of a delivery a provider's backend accepts; `encodes` says which
-- payloads json.Marshal renders and `accepts` which writes the connection takes; `droppable` says
-- which partitions the database drops, `covers` is ST_Covers of PostGIS, and `answers` says which
-- queries of an evaluation the database answers. `getenv`, `to_lower` and `parse_url` are what the
-- configuration reads; `month_of` and `starts` are Go's calendar in UTC; the record `Floats` holds the
-- operations on float64 that are more than copies; `sha256` is crypto/sha256; `distance`, `within` and
-- `valid` are what PostGIS answers of points and areas. The answer of a decoder or of a query is an argument,
-- `none` or a Boolean where it fails.
--
-- Not modelled: the database itself, the router and the health check, the signing of assertions, logs
-- other than the delivery outcomes, sleeping, the heartbeat comments of a stream, start-up, the
-- encoding of an instant for the database, the repository's other CI programs and the Android client.
pub mod Base
pub mod Auth
pub mod Clock
pub mod Presentation
pub mod Store
pub mod Push
pub mod Db
pub mod Config
pub mod Server
pub mod Vulngate
pub mod Tests
