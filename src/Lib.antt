-- ===== src/Lib.antt =====
-- MPUDP sends Datagrams as shards of a forward error correction code over several UDP paths. This
-- library models the parts of it that keep state or bytes straight.
--
-- Parts and files:
--  Wire          internal/wire: the authenticated v0.1 packet format. Types.antt has the messages,
--                Codec.antt `EncodedLen`, `AppendAuthenticated`, `DecodeAuthenticated` and
--                `DecodeAndDispatch`, Messages.antt the constructors, Authenticator.antt the cache of
--                HMAC states. Body.antt and Envelope.antt hold the lemmas of RoundTrip.antt.
--  WireV2        internal/wirev2: the authenticated v2 envelope; Framing.antt holds the lemmas of
--                RoundTrip.antt. Established.antt has the routes in front of typed bodies,
--                Context.antt encoding contexts and their acknowledgements, Bundle.antt bundles of
--                shards; their RouteTrip.antt, ContextTrip.antt, Records.antt and BundleTrip.antt hold
--                the lemmas and theorems.
--  Scheduler     internal/scheduler: `Assign`, which maps one block's shards onto the paths.
--  Fec           internal/fec: Fec.antt has the limits, Encoder.antt the encoder and the joining of
--                the data shards; Bounds.antt is about the limits, Split.antt and Block.antt about
--                one block, Ids.antt about packet IDs; Replay.antt has the replay window,
--                Receiver.antt and Delivery.antt the steps in which the decoder uses it. Parts.antt
--                has the shards that a block holds so far. Counters.antt (statistics.go), Expiry.antt
--                (expiry_heap.go) and Decoder.antt have the decoder's state, `NewDecoder`, `Stats`
--                and `Close`, below it Expiration.antt its sweeps and Adding.antt `AddVerifiedShard`.
--                Of its theorems, Maps.antt, Keys.antt, Cases.antt, Sweeping.antt and Viewing.antt
--                are about single steps; Counting.antt, Exact.antt and Bounded.antt about what is
--                counted; Heap.antt, Expiring.antt and Swept.antt about the heap of deadlines;
--                Following.antt, Answering.antt and Runs.antt relate calls to the window's steps,
--                Contents.antt, Genuine.antt and Sent.antt follow the blocks' bytes, and Taking.antt,
--                Waiting.antt and Completing.antt one block from its first shard to its last;
--                SumCode.antt is the stand-in for the Reed-Solomon library in its tests.
--  FecV2         internal/fecv2: FecV2.antt has the parameters, the fragments and the manifest's bytes,
--                Codec.antt `Encode` and `Decode`, Packing.antt `EncodePrefix`. Writing.antt and
--                Reading.antt are about the manifest, Codec/ about whole groups, Packing/ about what
--                a group takes of its input and how full it is.
--  AggregationV2 internal/aggregationv2: AggregationV2.antt has the send queue's state and the plan of
--                the next group, Queue.antt the operations. Slots.antt is about the ring, Planning.antt
--                and Leaving.antt about the plan and `EncodePrefix`, Validity.antt states the
--                invariant; Starting.antt, Admission.antt, Committing.antt, Sealing.antt, Undoing.antt and
--                Cancelling.antt are about the operations. The queue takes the credit ledger
--                as the interface `Scope`, which Ledger.antt fills with a Session of Credit.
--  ReassemblyV2  internal/reassemblyv2: ReassemblyV2.antt has the assembly of one Datagram, Receiver.antt the
--                operations, with RecvWindow's window in its state. Ranges.antt and Assembling.antt are
--                about one assembly, Pending.antt about the map of them; Delivering.antt and
--                Groups.antt follow `AddGroup`. Ledger.antt fills its interface to the ledger.
--  RecvWindow    internal/recvwindow: the window of terminal IDs. Ring.antt is about the loop that
--                clears bits, Slots.antt about the bits of IDs, History.antt has the abstract
--                view; Refinement.antt, Steps.antt and Finishing.antt relate the two, call by call,
--                Runs.antt and Stable.antt over sequences of calls.
--  Credit        internal/creditv2: the credit ledger. Credit.antt has the state and the helpers that
--                run under the lock, Operations.antt one function per exported operation. Balance.antt
--                states the invariant; Levels.antt to Closing.antt show that each operation keeps it;
--                Outcomes.antt and Handover.antt say what single calls do, Ledger.antt and Draining.antt
--                what histories of calls do.
--  Metrics       internal/metrics: the latency histogram. Buckets.antt holds its theorems.
--  Prelude       shared types and lemmas; `Result` is Go's `(value, error)`.
--
-- Each Tests.antt runs its part's definitions and theorems on concrete values.
--
-- A function with a Go error returns `Result`; a method that writes returns the new state. Go's
-- fixed-width integers are natural numbers, with `% 2 ^ w` where a sum can wrap, and byte slices are
-- lists of numbers below 256. HMAC-SHA-256 of crypto/hmac is a parameter, `mac`; what is asked of it
-- is that its tags have 32 bytes; so is SHA-256 in Context.antt, `digest`. The Reed-Solomon library's
-- `Encode`, `Reconstruct` (in v1 `ReconstructData`) and `Verify` are parameters, `codec`, `reconstruct`
-- and `verify`, of which `IsSystematic`, `Rebuilds`, `IsEncoding` and `IsErasureCode` say what is
-- asked. A clock is an argument, `now`. container/heap is a list of which its least entry is taken.
--
-- Loops are structural, over the number of their rounds, but for the windows' `clear_ring` and
-- `clear_positions`, which run on fuel: they get the number of bits to clear, and each round clears at
-- least one; for the decoder's sweeps, which get as many rounds as the heap has entries, and each takes
-- one; and for the reassembly's `Expire` and `Close`, which get as many rounds as assemblies are
-- pending.
--
-- Not modelled: sockets, timers, goroutines and channels of the runtime packages, JSON and command
-- line handling, and the Reed-Solomon arithmetic, which is another library's; the handshake, its
-- bodies and the session controllers, the queues' reusable output workspaces, and a collector that
-- several decoders share.
pub mod Prelude
pub mod Wire
pub mod WireV2
pub mod Scheduler
pub mod RecvWindow
pub mod Fec
pub mod FecV2
pub mod AggregationV2
pub mod ReassemblyV2
pub mod Credit
pub mod Metrics
