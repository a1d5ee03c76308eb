-- ===== src/Lib.antt =====
-- Tadori: a network diagnosis tool with a local web interface, in Go. This library models parts of
-- it and states what makes them correct.
--
-- Base passes on the shared names. Model holds the contracts of internal/model that pass between
-- the parts; a struct keeps the fields that some modelled function reads or writes.
--
-- Session models internal/session/session.go. A `managedSession` is the record `ManagedSession`
-- (Session/Defs); each function on it is one critical section of its mutex: `emit_locked`
-- (`emitLocked`), `cancel_session` (the locked part of `Cancel` and of the loop in `Close`),
-- `events_after` (`Events`), `subscribe`, `unsubscribe`, and `read`, a receive by a subscriber. A Go
-- channel is the record `Channel` (Session/Channel) with the events that its receiver has taken; a
-- send on a closed channel, a second close and a send that would wait for ever are values of
-- `Fault`. Session/Execute models `execute` and `runSafely` from the runner's return on, and
-- Session/Steps makes the critical sections steps, in any order; Session/Life joins them to a session's
-- whole course from its publication, where other goroutines may act on it before its own goroutine
-- starts. Session/Manager models `Manager`:
-- `create`, `cancel`, `close_manager`, `unique_id`, and the capacity channel as a count;
-- Session/Manager/Capacity has a step relation for creators, session goroutines and callers.
-- What the clock shows, what the option `NewID` returns and what `defaultID` (`default_id`) uses, which
-- is `rand.Read`, `hex.EncodeToString` and `fmt.Sprintf`, are arguments. `search_id` takes fuel for the
-- loop that has no bound in the source; one more turn than there are sessions is enough.
-- Not modelled there: `Wait`, JSON forms, and the normalization of the target before `Create`.
--
-- Batch models internal/batch/manager.go, with TargetIdentity of plan.go. Batch/Defs has the data and
-- the results that need no run, Batch/Boundary `failureBoundary`, Batch/Entry `runEntry`,
-- Batch/Summary `summarize`, Batch/Batches the critical sections of a `managedBatch`, and
-- Batch/Workers the workers of `execute` as a step relation: the channel of jobs gives each index
-- once, so the relation knows a worker by the index that it holds. What the runner does, what the
-- context of an entry says and what `report.DestinationStatusForReport` and `model.TargetIntentOnly`
-- give are arguments of the steps, any of which may occur. Callers can cancel and close, and the
-- context given to `Start` can end, at any time from `Start` on. `close(jobs)`, the exit of a worker
-- from its loop and the WaitGroup are not steps. The run of a supported entry with no target ends the
-- program, so it has no step.
--
-- Route models internal/probe/route/select.go and internal/model/ip.go: Route/Netip is the part of
-- net/netip that they use, Route/Select the choice of a route and of a default route.
-- `netip.ParseAddr` and `Addr.String`, which normalize an interface name, are parameters. Signed
-- fields are integers (Base/Integers); `sort.SliceStable` is the stable sort of Base/Sort.
--
-- Dns models internal/probe/dns/service.go. Dns/Message has the query and the reading of names and
-- records, Dns/Response `parseDiagnosticResponse`; a message is the list of its bytes, and an index
-- out of range is a value of `Parse`. `readDiagnosticName` has at most 128 turns in the source, and
-- so in the model. Dns/Connection and Dns/Attempt model one attempt, Dns/Lane the attempts over one
-- transport, and Dns/Service `Run`. What the dialer, the connections and the contexts do, and the
-- text functions of Go, are arguments; `write_all` has as many turns as there are bytes, which is
-- enough because a turn that goes on takes at least one (`write_all_turns`). Not modelled there:
-- durations, deadlines, and the texts of errors.
--
-- Packet models internal/packet/packet.go with the types and the normalization of
-- internal/model/packet.go and `MatchesAddress` of internal/model/target.go. Packet/Relevant says
-- which observations a scope admits and in which order, Packet/Tcp and Packet/Path what is matched
-- with an emission, and Packet/Correlate is `Correlate`. Times are natural numbers with 0 for the
-- zero time. The text functions of Go and what `NormalizeTarget` gives are arguments, and so is what
-- `json.Unmarshal` reads from an item of evidence. Not modelled there: the acquisition of packets.
--
-- Capture models `record` of internal/capture/capture.go and the totals of `observationLocked`. A Go
-- map is an association list, and the order in which the totals run over it does not matter for
-- 64-bit sums. Capture/Described is the specification: what the log of all results says of a key.
-- `strings.ToLower` is a parameter. Capture/Manager has the capacity channel and the released
-- sessions of internal/capture/manager.go as a step relation: what `Start` of a session does is a
-- step that fails or succeeds, and `release` is one step, since its receive follows at once. Not
-- modelled there: the proxy and the browser process.
--
-- Not modelled of the program: the rules of internal/diagnosis, internal/observations,
-- internal/privacy, internal/orchestrate and internal/report, target parsing, and batch plans beyond
-- TargetIdentity, which later parts of this library may add; and what is I/O or glue: the other
-- probes, the readers of the host's settings, the acquisition of packets, the web server with its
-- assets, and the command line.
pub mod Base
pub mod Dns
pub mod Packet
pub mod Capture
pub mod Batch
pub mod Model
pub mod Route
pub mod Session
