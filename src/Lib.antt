-- ===== src/Lib.antt =====
-- tarsx, a small RPC framework: clients and servers that exchange framed requests over TCP.
-- A client's `ServantProxy` puts a request into the `LoopQueue` of a network thread; that thread's
-- `ObjectProxy` frames it, sends it through a `Transceiver` and keeps it in a `TimeoutQueueNew` until
-- the answer comes or its time is over. A server's `NetThread` reads each `Connection` into a
-- `Buffer`, cuts the bytes into requests and hands them to a `ServantHandle`, which may run them on
-- the coroutines of a `CoroutineScheduler`.
--
-- The files, the code that each is about, and how the one corresponds to the other:
-- - LoopQueue (tarsx/LoopQueue.hpp): a record of the members; `push_back`, `push_back_at`,
--   `push_back_only` and `push_back_all` are the four `push_back`s, `pop_front` and `drop_front` the
--   two `pop_front`s. `uint32_t` and `size_t` wrap round where they do in the code.
-- - Buffer (tarsx/Buffer.h, tarsx/Buffer.cc): a record of the members with the block's bytes; a byte
--   that nobody wrote is `none`. The functions have the code's names, in snake case.
-- - CoroutineScheduler (tarsx/CoroutineScheduler.h, tarsx/CoroutineScheduler.cc): State has the
--   members and the moves between the lists, Pool makes coroutines, Wake has the ways to give up
--   a run and to be woken, Run has `tars_run` and `run`. A coroutine is its uid, a list the
--   sequence of uids from its head on. What a coroutine does between two switches is a parameter:
--   what it asks of the scheduler, and how it gives up its run. Stack has the allocator of
--   stacks: `page_count` with the rounding of a float, `allocate` and `deallocate`, which
--   `destroy` calls; what the system answers is an argument.
-- - TimeoutQueueNew (tarsx/TimeoutQueueNew.hpp): the three containers as lists; an iterator is the id
--   of the entry that it stands at. Times are milliseconds as natural numbers.
-- - Connection (tarsx/Connection.cc, and the frame of tarsx/ObjectProxy.cc): `recv` with its two
--   loops, the frame that a client writes, the slices still to be sent, and in Send the forms of
--   `send`, with its `int`s as 32 bits; what `read`, `send` and `writev` of the system answer is an
--   argument or a parameter.
-- - Transceiver (tarsx/Transceiver.cc): `sendRequest` and `doRequest` over the send buffer,
--   `doResponse` over the receive buffer; what the system's `send` and `readv` answer is an argument.
--   A `send` that fails ends the program (`LOG_SYSFATAL`): that is a fault.
-- - Message (tarsx/Message.h), ObjectProxy (tarsx/ObjectProxy.h, tarsx/ObjectProxy.cc): a client's
--   messages by their addresses, as a function, and what `sendReqMessage`, `doInvoke` and
--   `finishInvoke` do to them, to the timeout queue and to the transceiver. ObjectProxy/Book is the
--   book of calls that such a client stands for.
-- - AsyncProcThread (tarsx/AsyncProcThread.cc, and `pushAsyncThreadQueue` of
--   tarsx/CommunicatorEpoll.cc): a thread is its ring and what it did with messages, in order.
-- - CommunicatorEpoll (tarsx/CommunicatorEpoll.cc): the table of announced queues, and `handle` of one
--   as `handle_notify`; a queue is a number that stands for its address. Run has `handle` of whatever
--   epoll reports and the loop of `run` over the reports of so many waits.
-- - ServantProxy (tarsx/ServantProxy.h, tarsx/ServantProxy.cc): the choice of a queue and `invoke`.
-- - NetThread (tarsx/NetThread.cc): the connections by their ids and the free ids; Serve has
--   `processNet`, `processPipe` and the dispatch of `run`. BindAdapter (tarsx/BindAdapter.cc) and
--   EpollServer (tarsx/EpollServer.cc) stand between network threads and handles.
-- - ServantHandle (tarsx/ServantHandle.cc): `handleRequest` in rounds; what is done between two
--   `yield`s is one round. A request that got no coroutine stands in the jobs with the uid 0. Run has
--   `run` over the scheduler, for the rounds until the server stops.
-- - EpollServer/Groups (tarsx/EpollServer.cc, tarsx/ServantHandle.cc): the groups of handles with their
--   adapters, and the functions that a handle's `init` looks up. Application (tarsx/Application.cc): how
--   `extra_main` puts a server together; its own `initialize` and the descriptors are arguments.
-- - Servants (tarsx/HelloImp.hpp, tarsx/ServerImp.hpp, tarsx/NodeImp.hpp, tarsx/AdminF.h and
--   tarsx/RegistryImp.hpp): the functions that the servers register, on the characters of a request.
--   TarsNodeF (tarsx/TarsNodeF.cc, tarsx/NodeF.h): the beats of adapters and what the node is told.
-- - Socket (tarsx/Socket.cc, tarsx/NetworkUtil.cc): the descriptor, its owner, and what was closed.
-- - Communicator (tarsx/Communicator.cc): the network threads of a client, and the proxies that it is
--   asked for; an object is a number.
-- - Calls: the client, a connection, a handle and the answer, put together as one call.
-- - Registry (tarsx/Registry.cc, tarsx/ServantManager.h): the tables; a function is a number.
--   ObjectProxyFactory (tarsx/ObjectProxyFactory.cc): proxies by the text of their address.
-- - ThreadDeque (tarsx/ThreadDeque.hpp): the elements and the count beside them; what other threads do
--   in a wait is an argument. Monitor (tarsx/Monitor.hpp): the notifications that wait for the
--   unlocking.
-- - Prelude: the lists, words, tests and multimaps that they share.
-- In each folder the other files hold what is proved, and Tests runs it at concrete values.
--
-- A result in `Option` is `none` where the code fails an `assert`, reads or writes outside a block or
-- vector, or throws, or ends the program. Fuel: `roundUp2Power` has 65 rounds and the loop of `assureSpace` 64, since every
-- round doubles and sizes stay within 2^63; the framing loop has one round more than there are bytes,
-- since a frame has at least five; `timeout` has one round more than there are deadlines. That these
-- are enough is proved. `send` of slices has one round more than there are slices, and the loop of
-- `handle` one more than the queue has elements, which is enough as well.
-- The loops of `tars_run` are bounded in the code, by 100 each. The rounding to a float doubles
-- its unit 40 times at most, since a `size_t` has 64 binary digits and a float has 24.
--
-- Not modelled: threads (every operation is run as one step, under its lock where it has one), the
-- switch of registers and stacks, epoll, the options and addresses of sockets (what a system call
-- returns is an argument), the mutex and the condition, the servers' main functions and the test
-- programs.
pub mod Prelude
pub mod LoopQueue
pub mod Buffer
pub mod CoroutineScheduler
pub mod TimeoutQueueNew
pub mod Connection
pub mod Transceiver
pub mod ThreadDeque
pub mod Monitor
pub mod Message
pub mod AsyncProcThread
pub mod ObjectProxy
pub mod BindAdapter
pub mod NetThread
pub mod CommunicatorEpoll
pub mod ServantProxy
pub mod EpollServer
pub mod ServantHandle
pub mod Registry
pub mod ObjectProxyFactory
pub mod Servants
pub mod Calls
pub mod TarsNodeF
pub mod Application
pub mod Socket
pub mod Communicator
