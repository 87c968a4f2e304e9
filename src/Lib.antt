-- ===== src/Lib.antt =====
-- The runtime of aggexp (aggregated Kubernetes API servers over arbitrary backends), modelled and proved.
--
-- The program. A backend (runtime/storage/backend.go) serves the objects of one resource. The adapter of
-- runtime/library turns it into REST handlers: it numbers the objects' versions with a counter, publishes
-- watch events, tracks versions for optimistic concurrency, filters by selectors and cuts lists into
-- pages. Backends that cannot push are polled by a watcher that publishes what changed. In a deployment
-- of several replicas writes hold a Lease (runtime/library/locker.go), or the lock that is embedded in
-- the object's metadata resource (runtime/library/multihost/lock.go over metastore.go there). The adapter of
-- that package keeps bodies and metadata in two resources of the host, stitches them together for each
-- caller behind an identity gate, and its hub gives every watch its own channel. Of the
-- second component runtime (runtime/component/v2) a collector deletes metadata without an object (gc), an
-- authority hands out versions (watch), and declared rules mutate and validate objects (admission).
-- runtime/authz asks an external service for decisions.
--
-- The files. Each file opens with the code that it is about.
--   Prelude, Text, Decimal, Base64, GoMap: lists, texts as byte lists, strconv, encoding/base64, maps.
--   Kube: objects, selectors, events and status errors of the API machinery. Storage: the contract.
--   ResourceVersion: `rvLess` of runtime/library/helpers.go.
--   Library/Objects, Occ, FieldSelector, Pagination, PollWatch, Locker, Subresource, CrdStore: the files of
--   runtime/library with the like names (helpers.go, uid.go and bookmark.go are Objects).
--   Library/Rest: adapter.go and options.go, with Rest/Reading (Get, List, Watch) and Rest/Writing (Create,
--   Update, Delete); the other children hold proofs: Steps and Run about sequences of calls, Outcomes about
--   each write, Conflict about concurrency control, Listing about lists and watches.
--   Multihost: runtime/library/multihost. Ref is ref.go; MetaStore (the lock surface), MetaCache (the rest of
--   the store), Encoding and Signature are metastore.go; Lock and Lock/Txn are lock.go; BodyStore is
--   bodystore.go, with its push fan-out in BodyStore/Subscriptions and the hash in BodyStore/Hash; Hub, Hub/Fanout and Hub/Poll
--   are watch.go, and Hub/System is the hub as a step relation over its goroutines and clients, Hub/Sources the live sources of one watcher; Rest,
--   Rest/Reads, Rest/Txn and Rest/Writes are adapter.go. The other children hold proofs.
--   Metadata: metadatastore.go of runtime/component/v2/metadatastore.
--   Admission, with Values, Engine: admission.go of runtime/component/v2/admission.
--   Gc, Authority, Authz: gc.go and watch.go of runtime/component/v2 and runtime/authz/authorizer.go.
--   Tests, ReadTests, WatchTests, RestTests and Samples: runs, and the theorems applied to concrete inputs.
--
-- How state is modelled. A handler is a function from the state to the state and its result, and runs as
-- one step, but for the watch hub, whose goroutines are interleaved, and the embedded lock, whose renewals come
-- between the steps of a transaction, as often as the ticker is taken to have fired; objects that the code stamps in place are returned. Errors are values of `ApiError`, without
-- their messages. Services behind a network are records of operations over a world that is passed on, so
-- that other clients may change the world between two calls. A map is an association list without
-- repeated keys; iteration order is nowhere part of a statement.
--
-- Bounds and fuel. Versions of an adapter are uint64 and wrap around; offsets and limits are int64 and wrap
-- around too. The ids and metrics of the multihost hub and adapter are taken to stay below their bounds.
-- Loops recur on lists, or on the number of attempts that the code itself gives (three for an acquire,
-- `attempts_of` for a transaction). `decimal` prints with one unit of fuel more than the number, which has
-- fewer digits than that. The client that follows pages has as many rounds as there are items and one.
--
-- Parameters. Backends, their objects and the accessors of object metadata, selectors, hashes (sha256 and
-- that of the poll watcher), tickers, HTTP, JSON, CEL, the coordination API, the host's API server and its informers.
--
-- Not modelled: the broadcaster's channels and table conversion of the adapters, tickers and contexts, the
-- wiring of informers, transports, schemes and generated code of runtime/component, the assembly of the
-- server (runtime/server, runtime/group), drivers, and the prototypes in experiments.
pub mod Prelude
pub mod Text
pub mod Decimal
pub mod GoMap
pub mod ResourceVersion
pub mod Kube
pub mod Storage
pub mod Base64
pub mod Library
pub mod Multihost
pub mod Admission
pub mod Metadata
pub mod Gc
pub mod Authority
pub mod Authz
