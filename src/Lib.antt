-- ===== src/Lib.antt =====
-- A model of the distributed systems of this repository: a replicated key-value store (kv/), a
-- bank whose branches take snapshots (bank/) and a file store on a ring (chord/), and a
-- web server (http/), with theorems.
--
-- Kv: the store. Clients send requests to a coordinator; it reads and writes its own replica, asks
-- the coordinators of the other replicas over channels, and answers.
--   Kv.Messages: kv/proto; timestamps and their order, which protobuf defines, are an interface.
--   Kv.Config: kv/server/src/config.cpp (`load`).
--   Kv.Header, Kv.Codec: kv/net/messaging/include/message.hpp; what protobuf makes of a message is
--   an interface with the law that a serialized message is parsed back.
--   Kv.Log: kv/server/include/log.hpp (`write_update`, `replay_log`) on the bytes of the file.
--   Kv.Channel: kv/net/channel/include/channel.hpp. A channel is its queue, the write in progress
--   and what has been written; completions, failures and timers are events. The header of a message
--   lies in memory that is gone when it is written, so that what is found there is an argument.
--   Kv.Replica: kv/server/src/replica.cpp. `write` queues an update for the strand of the log, and
--   `run_update` is that update's run; `cas_loop` is its compare-and-exchange loop, with the updates
--   of other threads in each round as an argument.
--   Kv.Coordinator: kv/server/src/coordinator.cpp, one function for each handler. `Events` puts them
--   together as a machine: messages, connections, and the tasks that wait on strands and in the
--   io_service. What is sent is kept in the order of sending. `Wired` is the set-up, and `Kept` and
--   `Quorum` follow a write from there on.
--   Kv.Client: kv/client/src/client.cpp, the commands of a user and what they send.
-- Bank: a controller gives each branch its share of the money and starts snapshots; the branches send
-- each other money and markers over channels.
--   Bank.Messages: bank/proto/bank.proto. Bank.Header: bank/src/message.cpp.
--   Bank.Channel: bank/src/channel.cpp; it is related to the channel of the store.
--   Bank.Snapshot: bank/src/snapshot.cpp, what one branch records while a snapshot runs.
--   Bank.Branch: bank/src/branch.cpp. Messages either act at once or post a task on the strand; the
--   tasks run one at a time (`run_task`), and the timer pays another branch (`do_send_money`), with
--   the random draws and the money that other threads add as arguments. Bank.Withdrawal has the
--   loop of a payment, and Bank.Peers the choice of the peers that a branch connects to.
--   Bank.Network: the branches with the messages between them, where handlers of several threads may
--   meet. Bank.Global: the bank as bank/src/branch_main.cpp runs it, with one thread for each
--   branch, while one snapshot is taken. `handle` is a message with the task that it posts, as one event;
--   that the thread may handle other messages of the branch in between is left out.
--   Bank.Controller: bank/src/controller.cpp (`do_read_list`, `timer_fired`).
--
-- Chord: a file store on a ring of nodes.
--   Chord.Hash: identifiers; the hash of OpenSSL is a parameter. Chord.Node: chord/include/chord.h;
--   a call of another node is recorded or stands for its answer. Chord.Node.Joined: how the nodes
--   of a list are given their tables, as chord/init does it. Chord.Files:
--   chord/src/FileStore_server.cpp; what Thrift makes of a file on the disk is a parameter.
-- Http: a web server. Http.Request and Http.Response: http/src/http.cpp. Http.Socket: the loops of
--   http/src/socket.cpp over the results of system calls. Http.Mime: http/src/mimedb.cpp.
--   Http.File and Http.Descriptor: the objects of http/include/file.hpp and of class Socket that own
--   a descriptor. Http.Hosts: names and addresses in http/src/socket.cpp. Http.Log:
--   http/src/logger.cpp. Http.Server: http/src/server.cpp, with the file system as an argument.
--
-- A handler returns an `Outcome`: its result, an exception, or `undefined` where C++ gives the
-- code no meaning, as for an access outside an array. Numbers have their width: the consistency that
-- a request counts down is a `uint32_t`, the counters of hints and the amounts of the bank have 64
-- bits, and each of them wraps around.
--
-- Fuel: `replay_loop` reads a record in each round, and a record has at least the eight bytes of
-- its header, so that the length of the file is enough. `receive` reads a message in each round; its
-- theorem holds for any number of rounds above the number of messages. `cas_loop` and `withdraw`
-- have a round for each exchange that is tried, and their theorems say which rounds suffice.
--
-- Not modelled: the system calls on sockets, acceptors, the resolver and timers as such, and what is written to the
-- terminal; the code that Thrift generates for chord/.
mod Prelude
pub mod Kv
pub mod Bank
pub mod Chord
pub mod Http
