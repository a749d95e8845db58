-- ===== src/Lib.antt =====
-- A model of dhcp-lease-observer: a program that reads the DHCP leases and the ARP table of a NEC
-- IX2106 router over SSH, keeps the last good state in a file, and writes what changed as events and
-- metrics.
--
-- The parts, in the order of one run:
--   * internal/session/ix2106/session.go frames the output of one command: Session, with its regular
--     expressions in Session/Prompt and its searches for lines in Session/Lines.
--     ExtractCompleteCommandBody is `extract`.
--   * internal/parser/ix2106 reads the two tables: Parser/Transcript (readTranscriptLines),
--     Parser/Lease (ParseLease), Parser/Arp (ParseARP), on the fields of Parser/Fields and the
--     numbers of Parser/Numbers.
--   * internal/model/snapshot.go is the snapshot that does not depend on the router: Model and
--     Model/Mac, each Validate a function `..._validate`, with the JSON form in Model/Mac/Json.
--   * internal/identity/device.go replaces hardware addresses by keyed digests: Identity, on Base64.
--   * internal/state: State (Snapshot.Validate), State/OpaqueId (validOpaqueID), State/Normalize
--     (Normalize), State/Event and State/Diff (Diff). State/Diff/Expected says which event a device
--     calls for, and State/Diff/Replay reads a state as a map from devices to addresses.
--   * internal/output: Output (WriteEvents, WriteStatusEvent, WriteStartupFailureEvent) and
--     Output/Metrics (Metrics.Validate), with the text of the metrics in Output/Prometheus
--     (WritePrometheus, SavePrometheus).
--   * internal/collector/collector.go: Collector (what a run meets and changes, Runner.fail),
--     Collector/Prepare (Run up to the events, which writes nothing) and Collector/Run (the writes).
--     Collector/Source reads the transport's errors and bodies, Collector/Files its state file.
--     Collector/Reported/Ways lists the ways in which a run ends, Collector/Unwritten those in which
--     an entry does not get into the log.
--   * internal/transport/ix2106/transport.go: Transport (the configuration), Transport/Dial (dial,
--     clientConfig, pinnedHostKey), Transport/Collect (Collect, collect, runCommand, nextFrame),
--     Transport/Connection (the connection that dial makes and client.close closes) and
--     Transport/Buffer (outputBuffer, as a step relation of its writers and its reader).
--   * internal/state/store.go is State/Store, on internal/atomicfile/write.go (AtomicFile) and
--     internal/safefile/open_unix.go (SafeFile), over the map of files of Files.
--   * internal/config/config.go: Config (Load, Validate, Transport) and Config/Credentials
--     (LoadCredentials), on the paths of Text/Path, and Config/Secrets (the same with the arrays in
--     memory, and Clear).
--   * internal/app/app.go: App/Flags (the flags) and App (Run, from the arguments to the exit status).
--   * cmd/package-release/main.go, a program of its own that builds the archives of a release: Release
--     (main behind its flags, buildRelease), Release/Package (one archive), Release/Version
--     (versionPattern), Release/Environment (filteredEnvironment) and Release/Write (writeAtomic).
-- The app loads the configuration and the credentials and starts one run of the collector on the
-- transport. The transport returns what the session extracts, and the parser reads that; the collector
-- calls the parser, Normalize and Diff, then the writers. Prelude, Text, Net and Clock hold what the
-- parts share. Tests holds runs of the model and the theorems at concrete inputs.
--
-- How the source is read:
--   * A Go string or a []byte is a list of bytes (Text.Bytes). The functions of package strings work
--     on those: TrimSpace knows every Unicode space in UTF-8; ToLower and the fold of (?i) change the
--     letters that can take part in a match of an ASCII phrase.
--   * An error is a value of a data type with one constructor for each place that returns one
--     (Prelude/Results). The fixed messages of the Failure and Error types are functions of it; the
--     texts of other errors are not modelled.
--   * A map from keys seen is the list of the keys; the map from devices of Diff is a function.
--     sort.Slice is an insertion sort: where it is used on a valid state no two items have one key.
--   * An instant is an unbounded integer of nanoseconds since the zero Time; a Duration is an int64
--     and wraps around. The monotonic reading of a Time is not modelled.
--   * HMAC-SHA256 is a parameter; the theorems that need it ask for digests of 32 bytes.
--   * A Reader gives bytes and then its end or an error; bufio.Scanner and io.LimitReader are written
--     out for it with the limits of the source, 1 MiB and 64 KiB.
--   * Of a run of the collector, what the state file holds, the source's answer, the clock, the result
--     of each call of Encode and of each write of a file are inputs (Collector.Env). A file write
--     replaces the file, or fails and leaves it, or replaces it and then fails to sync the directory.
--   * A call of the system in a write works, fails, or is where the process stops (AtomicFile.Calls,
--     Release/Write.WriteCalls); the deferred removals, too, may be where it stops.
--     A file that is written and not yet synced is taken to be there: power failures are not modelled.
--   * The SSH library's handshake is a parameter that gets the client's configuration and has the
--     peer's host key, its end, and whether the password callback has run; what else the
--     library, the network and the deadlines give is the record DialCalls or SessionCalls. The
--     methods of outputBuffer are steps in any order: each is atomic under its lock, and a signal
--     comes some time after the write or the close that it is for.
--   * The text of a float64 is a parameter of Output/Prometheus (Formats).
--   * encoding/json is a parameter of State/Store and of Config (Codec).
--   * The go command, the encoders of package tar and package gzip, and SHA-256 are parameters of
--     Release; the directories of MkdirTemp stand apart from the other files.
--   * Loops are structural recursion, so nothing needs fuel.
--
-- Not modelled: the text of JSON, and that of a float64 (formatSeconds, formatDuration); copies of
-- secrets that the Go runtime makes (io.ReadAll is taken to fill one array); of the transport, the
-- names of the algorithms of the SSH exchange, which change no result; of the app, signals and the
-- overall deadline, which reach a run only as the outcomes of its calls; of the release packaging, how
-- package flag reads its two flags.
pub mod Prelude
pub mod Text
pub mod Net
pub mod Clock
pub mod Model
pub mod Base64
pub mod Identity
pub mod State
pub mod Parser
pub mod Session
pub mod Transport
pub mod Output
pub mod Files
pub mod AtomicFile
pub mod SafeFile
pub mod Config
pub mod Collector
pub mod App
pub mod Release
mod Tests
