-- ===== src/Lib.antt =====
-- The runtime of toa, as far as an operation and what it tells others go.
--
-- A component's operation is invoked with a request. It acquires its state, runs an algorithm on it
-- and commits what the algorithm left; a commit is one write of the storage, with the row that the
-- outbox is to publish; the outbox hands the row to its destinations, and its cycle finds again
-- what a process left behind. A call and an event carry the chain of hops they came by, and a rule
-- refuses a chain that comes back too often. A pulse calls an operation on a cadence, a dispatcher
-- makes calls that were put off, which a schedule stores, and the gateway finds a resource by its
-- path, decides who may call it and meters requests by quotas.
--
--   Trail      runtime/core/source/trail.ts: `extend`, `received`, `clip`, `ordinal`, `limits`.
--   Entity     runtime/core/source/entities: `Entity`, `EntitySet`, `Changeset`, `Factory`.
--   State      runtime/core/source/state.ts: `entry`, `entries`, `commit`, `massCommit`, `apply`,
--              `ensure`, `recall`, over a storage that is a record of functions on a state.
--   Operation  runtime/core/source/operation.ts, transition.ts and assignment.ts: `invoke`, `once`,
--              `process` and the attempts of a transition; in Reading observation.ts and
--              effect.ts.
--   Restrict   what `invoke` leaves of a reply: `restrict`, `fitted`, `fit` of operation.ts.
--   Outbox     runtime/core/source/outbox.ts: a row, `publish`, `#send`; in Groups `#groups`, in
--              Pump `#assignment`, `#read`, `#pump`, `#tick`, `#mark`, `#settle`, `close`.
--   Pulse      extensions/cadence/source/Pulse.ts: `ordinal`, `boundary`, `tick`, `fire` and the
--              states that `open`, `close`, `pause` and `unpause` lead to.
--   Cadence    extensions/cadence: in Row source/row.ts, in Metronome the operations `settle`,
--              `delay` and `resume` of its component, in Dispatcher source/Dispatcher.ts, in
--              Schedule source/Schedule.ts, in Scheduler `schedule` of source/Scheduler.ts.
--   Routing    extensions/exposition/source/RTD: in Segments segment.ts, in Tree `match`, `sort`
--              and the constructor of Node.ts, Route.ts and Tree.ts, in Tree/Merge `merge`.
--   Auth       extensions/exposition/source/directives/auth: in Identities schemes.ts, split.ts and
--              `preflight`, `resolve` and `audience` of Authorization.ts, in Directives what each
--              directive authorizes and admits, in Authorization `arrange`, `precall`, `admits`,
--              `permits`, `settle` with that of Incept.ts, and `depart`.
--   Throttle   extensions/exposition/source/directives/io/lib/throttle: Keys.ts with its components
--              and conditions, Quotas.ts and Sync.ts.
--   Call       runtime/core/source: call.ts with abandon.ts and the identities of
--              entities/newid.ts, in Transmission transmission.ts, in Component `invoke` of
--              component.ts, in Receiver receiver.ts, in Event event.ts and emission.ts.
--   Connector  `halt` and `restore` of runtime/core/source/connector.ts and gate.ts, and in Link
--              `connect`, `disconnect` and `#discard`.
--   Workload   runtime/boot/src/workload.js: `running`, `quiesce`, `cancel`, `stop`, `#cycle`,
--              `#down`, `#resume` and `close`, with `down`, `up` and `remaining` of gate.ts.
--   Query      runtime/core/source/query: property.ts, options.ts and criteria.ts, and in Cache
--              `#criteria` and in Parse `parse` of query.ts.
--   Prelude    shared names, Boolean tests on numbers, lists, maps by number keys.
--
-- State is passed explicitly; errors are values. Code that awaits is split where it awaits, and
-- what may come between is an event of a run: a run of an outbox, of a quota, of a pulse, of a
-- dispatcher or of a schedule is a list of events in any order. Identifiers, names of destinations
-- and digests are only compared, and are numbers. Time is a number of milliseconds that is passed
-- in.
--
-- Where what an outbox publishes inline fails, which a moment of a call says, the operation raises
-- after the write was made. A timer of a workload fires at once past what setTimeout takes.
--
-- The attempts of a transition are bounded as the source bounds them, by 32 retries. The pages of
-- an outbox's cycle are on fuel, and a cycle that runs out of it answers `none`; fuel for one page
-- more than a bound of the ids is enough. A walk of a tree of connectors is on fuel, and as much
-- as there are connectors, or as the tree is deep, is enough.
--
-- Parameters: the storage, the component's schemas, guards and algorithms, the contracts of a
-- request and of a reply, the parser of a query, the digest of node:crypto, what an atom says of
-- the lanes and intervals of a replica, what comes next in a calendar, `decodeURIComponent`,
-- `URL`, `Number`, the parser of criteria, patterns of paths, what `add` makes of two requests,
-- the components of identities, how a scheduled request is spelled, the metronome that a schedule
-- is handed to, random choice and new identifiers.
--
-- Not modelled: HTTP, AMQP and MongoDB, spans, logs and gauges, manifests and deployment,
-- walking the tree of routes, how a tree of connectors connects, operations over
-- sets, streams being destroyed, and the rounding of doubles in a quota.
pub mod Auth
pub mod Cadence
pub mod Call
pub mod Connector
pub mod Entity
pub mod Operation
pub mod Outbox
pub mod Prelude
pub mod Pulse
pub mod Query
pub mod Restrict
pub mod Routing
pub mod State
pub mod Throttle
pub mod Trail
pub mod Workload
