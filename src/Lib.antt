-- ===== src/Lib.antt =====
-- nps-mux: many logical connections over one. The sides exchange messages: a flag, the id of a
-- connection, and a content, a window word, or nothing. The writer's goroutine takes messages from
-- a priority queue and packs them into the connection, the reader's goroutine unpacks them and
-- hands them to the logical connections, and each logical connection cuts what is written to it
-- into messages as far as the window of the other side allows.
--
-- The parts, and the files of this library that model them:
-- - Flag: the flags and sizes of mux.go and pool.go.
-- - Stream: Go's slices, little-endian words, io.ReadFull, and a connection that takes a number of
--   bytes and then fails.
-- - Packager: netpackager.go. basePackager and muxPackager are records of the same fields; Set,
--   Pack, UnPack and reset of the first are base_set, base_pack, base_unpack, base_reset, and of
--   the second mux_set, mux_pack, mux_unpack, mux_reset. Frame has the layout on the wire, written
--   down independently of the code.
-- - Dequeue: bufDequeue of queue.go, a ring of slots with a packed head and tail. Ring is about the
--   packed word and the positions, Refine about the ring as a bounded queue, Stale about a consumer
--   that is overtaken.
-- - Chain: bufChain of queue.go, a list of rings, as an unbounded queue.
-- - PriorityQueue: priorityQueue of queue.go, with its abstract queue in Policy.
-- - ConnQueue: connQueue of queue.go, one chain with the same waits as the priority queue.
-- - Window, SendWindow: the window word and sendWindow of conn.go. Segments is about how WriteTo
--   and WriteFull cut a buffer, Fuel about the loop's fuel, SetSize about the reports of the
--   receiver.
-- - ReceiveQueue: listElement and receiveWindowQueue of queue.go. Count is about the length word,
--   Runs about runs of calls, Wait about a Pop that sleeps.
-- - Pools: pool.go. Runs is about runs of Get and Put, Clean about what is handed out.
-- - ReceiveWindow: receiveWindow of conn.go. Report is about the bytes read and reported to the
--   sender, Size about calcSize, Safe about Write on any window. Reader has Read, readFromQueue,
--   Stop, CloseWindow and release; Unread, Rounds and Whole are about what a Read delivers, Close
--   about CloseWindow, Safe about any Read.
-- - FlowControl: the two windows of one direction of a logical connection, with the messages and
--   the reports on their way between them, as a step relation. Balance is its invariant,
--   SenderSteps and ReceiverSteps the steps of each side, Reached what holds in every state that
--   can be reached.
-- - ConnMap: connMap of map.go, and getId of mux.go. Laws is the map as a finite map, Runs compares
--   it with a function, FreshId is about getId.
-- - Mux: Mux of mux.go and conn of conn.go. A connection is an index into the store of connections,
--   so that the map and its callers share it. Send is about sendInfo, CloseConn and CloseAll about
--   the two Close, Shuts about the loop of connMap.Close, Drain about release, WellFormed has the
--   invariant, Lifecycle is about NewConn and Close, Io has Read and Write of a connection. Session
--   has one round of each goroutine; Delivery, Isolation, Only, Pings, Accept and Broken are about
--   those, Blocking about the messages for which the reader goroutine sends on a channel. Sending
--   is about what sendInfo and the writer goroutine put on the connection, Wire and Arrival about
--   two muxes end to end. PutConn and Follows, and Announce, Serve and Safe of Session, show for
--   one operation each that it keeps the invariant; Calls has Read and Write with what they send,
--   Deadlines the three that store a deadline. Steps has the rounds and the calls of the program as
--   the steps of one system, Reached and Over what holds in every state that can be reached.
-- - Latency: latencyCounter and bandwidth of mux.go, writeBandwidth of conn.go.
-- - Rate: rate.go. Bucket is about how much it lets through.
-- - TrafficControl: TrafficControl of tc.go. Subsets is about getArrayExhaustivity, Session about
--   RunNetRangeTest.
-- - Base: what the others share. The loops around a CompareAndSwap are cas_loop in Base/Atomic.
--
-- The model: numbers are native naturals, and the code's wrap-around is written out. An int32 id is
-- its bit pattern. A slice is the array from its first byte on and a length, so that its capacity
-- is the length of the array; a panic is none. A buffer from the pool is any array of 4085 bytes:
-- what it holds is an argument. A pointer is an Option.
--
-- Concurrency: an operation with a CompareAndSwap loop takes a list of functions, which is what the
-- other goroutines do between its load and its CompareAndSwap, round by round, and with an empty
-- list it runs alone. WriteTo and WriteFull take a list of turns: what the others do to the window
-- around each wait, and how the wait ends. A run that is still waiting when its turns are used up
-- is none. Pop of the receive queue takes a list of pauses in the same way, and readFromQueue a
-- list of visits, one for each Pop of its rounds. In FlowControl each operation is one step, and
-- the steps come in any order; neither window is closed there, and a WriteFull that gives up, as at
-- a timeout, is one after which the next begins. Pop of the priority queue, and of the queue of
-- connections, takes what the others do at its yield and during each wait.
--
-- The steps of a mux: a state is the mux, the connection with which the goroutine that announces
-- waits in its send to Accept, if there is one, and the connections that the program got from
-- NewConn and Accept. Close of the mux closes that channel, and where the goroutine waits in the
-- send it panics: no state is reached by that. A step is a round of a goroutine on any bytes, any
-- answer of the pools and any measured value, or a call on the mux or on such a connection. A Read
-- is a step where what it pops is there, a Write with anything that happens around its waits. A
-- state has no bound on the bytes that wait: the length word is taken modulo 2^32.
--
-- Fuel: WriteFull has one unit more than the buffer has bytes; each round but the last sends a byte
-- or more. A CompareAndSwap loop has one round more than the list of interferences. Each release
-- has one unit more than the rings have slots. getId has one unit more than there are connections:
-- its candidates differ until all ids were tried. The inner loop of getArrayExhaustivity has one
-- unit more than its number. Everything else is structural recursion.
--
-- Parameters: float64 and package time are the record Numbers of Latency. What sysGetSock answers,
-- what the connection behind a rate does, what the pools hand out to a mux, whether a command
-- succeeds, and the order in which Go ranges over a map are arguments.
--
-- Not modelled: how the goroutines of one mux interleave within a round or a call (each is one
-- step), when the timer of a deadline fires (a wait ends as an argument says), addresses (they pass
-- a call on), the lookup of network cards and the docker commands of tc.go (system calls and shell
-- commands for measurements), and sysGetsock (system calls). That a buffer is not used after it was
-- given back to its pool is not modelled either: buffers are values.
pub mod Base
pub mod Stream
pub mod Flag
pub mod Packager
pub mod Dequeue
pub mod Chain
pub mod PriorityQueue
pub mod Window
pub mod SendWindow
pub mod ReceiveQueue
pub mod Pools
pub mod ReceiveWindow
pub mod ConnQueue
pub mod FlowControl
pub mod ConnMap
pub mod Mux
pub mod Rate
pub mod Latency
pub mod TrafficControl
