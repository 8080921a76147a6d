-- ===== src/Lib.antt =====
-- Goxos is a framework for replicated services: the replicas of a group agree by MultiPaxos on a
-- sequence of client requests, slot by slot. This library models the actors of MultiPaxos and the
-- data that they share, the detectors that choose its leader, BatchPaxos, the reliable broadcast
-- and the key-value store that runs on top.
--
-- Base holds what the modules share: tests on numbers, lists, signed integers, Go maps, counted
-- loops, and `Outcome`, which is a value, a run-time panic, or a loop that does not end. A `uint`
-- is a natural number with its wrap-around at 2 ^ 64 written out.
-- Grp is the group (grp/node.go, grp/grpmgr_imp.go): the ids of replicas and their order, the node
-- map, and what the actors read of the group manager.
-- Paxos is the data of the protocol (paxos/proprnd.go, value.go, msg.go, aslots.go, pslots.go,
-- lslots.go, utils.go): proposer rounds and their order, values, messages, and slot maps. A Go map
-- of pointers to slots is a table of values, since one actor alone writes it.
-- Lr is the search for a quorum without conflicts (lr/comb_iterator.go, lr/vq.go,
-- multipaxos/vq.go).
-- Multipaxos/Acceptor is multipaxos/acceptor.go, and Multipaxos/Proposer multipaxos/proposer.go.
-- Multipaxos/Learner is multipaxos/learner.go, of whose handlers for live replacement only
-- `handleLrnLr` is here. In each, a handler is a function of the actor's state, and `step` is one
-- round of the `select` loop of `Start`: it takes what is received as an `Event` and returns what is
-- sent, in order, as a list of `Output`. The actors interact only by what they send, so a run of an
-- actor is a list of events, each with the group manager as it is at that time.
-- Liveness is the two detectors of package liveness: Fd is liveness/fd.go, Ld liveness/mon_ld.go, and
-- `detect` runs them together, the leader detector handling what the failure detector publishes. A
-- heartbeat, a tick and a request are events.
-- Batchpaxos is BatchPaxos (batchpaxos/batcher.go, batchpoint.go, quorum.go, batchacceptor.go): the
-- client log and its batches, the batch points of the leader, the quorum of a batch, and the handlers
-- of the batch acceptor with its `select` loop as `step`. A range over a Go map takes the entries in
-- the order of a list, which no theorem rests on but by `sort.Strings`.
-- Kvs is the key-value store (kvs/common/reqresp_marsh.go, kvs/kvsd/handler.go), the state machine
-- that a replica applies decided requests to. A varint is a record of operations and laws, which
-- Kvs/Leb128 fills with those of Go's encoding/binary.
-- Reliablebc is reliable broadcast (reliablebc/authmanager.go, lstorage.go, relbclearner.go,
-- relbcacceptor.go): the authentication codes, with HMAC as a parameter, the storage of rounds, the
-- learner up to where it stores the value of a decided round, and the handlers of the acceptor, with
-- the hash of a value as a parameter.
-- Tests has concrete runs.
--
-- Fuel: the loops over slots run with one unit more than there are slots up to the highest one, and
-- `sendAccept` with one for each slot of the window, the loop of `tryToAdvance` with one for each
-- state of a batch, and the loops over a range of sequence numbers for two rounds of the word; the
-- theorems on them say that this is enough.
-- The loops that count up to and including the highest slot do not end if it is 2 ^ 64 - 1, and the
-- theorems on them have that hypothesis. What the acceptor makes for a promise is as long as the
-- prepare's slot is ahead of its highest one: the length that the Go runtime can allocate is the
-- parameter `limit` of the prepare handlers, and a longer slice is a panic.
--
-- Not modelled: channels, timers and goroutines (each actor is one goroutine; what it receives
-- arrives as an event, a timer is an event and its reset an output), log lines, the other protocols
-- (parallelpaxos, authenticatedbc, and of reliablebc the publisher and what the learner
-- sends to the server), the reconfiguration modules, the server, the network and the client library.
pub mod Base
pub mod Batchpaxos
pub mod Grp
pub mod Paxos
pub mod Lr
pub mod Multipaxos
pub mod Tests
pub mod Kvs
pub mod Reliablebc
pub mod Liveness
