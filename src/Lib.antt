-- ===== src/Lib.antt =====
-- Ham, a network library of event loops over epoll with an HTTP server, as definitions and theorems.
--
-- The program. A `Buffer` (ham/net/Buffer.cc, ham/net/Buffer.h, ham/net/Endian.h) holds the bytes that
-- come from or go to a socket. A `Channel` (ham/net/Channel.cc) has the events of one descriptor; the
-- `Epoller` (ham/net/Epoller.cc) keeps the kernel's interest list in step with the channels. A
-- `TimerQueue` (ham/net/TimerQueue.cc, ham/net/Timer.cc) is driven by a timer descriptor. A
-- `Connector` (ham/net/Connector.cc) makes a connection, and a `TcpConnection`
-- (ham/net/TcpConnection.cc) sends and receives over one: it has two buffers and a channel. The HTTP
-- server (ham/net/http) parses requests out of the input buffer and sends rendered responses. An
-- `EventLoop` (ham/net/EventLoop.cc) is the loop of one thread: it waits for the poller, calls the
-- channels, and runs the functors that any thread may queue. A `TcpServer` (ham/net/TcpServer.cc) hands
-- its connections to the loops of several threads. Threads also share the queues, the latch and the
-- `ThreadPool` of ham/base.
--
-- The files.
--  - Base: what the parts share. `Result` is the result of code that may end the process: a failed
--    `assert`, an exception that nothing catches, or undefined behaviour is a `Fault`. `Returns m P`
--    says that `m` ends without a fault, in a state that satisfies `P`.
--  - Net/Buffer: the record of `Buffer` and its operations by their names in snake case; Search is
--    `findCRLF` and `findEOL`, Ints the integers, Input `readFd`. `Contents` has the invariant and the
--    abstract view of a buffer, the list of its unread bytes, and Ops and Strings show that each
--    operation does to that list what its name says. Sequence has calls in a
--    row, on a buffer and on a list.
--  - Net/Http: Request, HeaderMap, Context, Response and Server are the classes of ham/net/http;
--    Context/RequestLine, Headers and RoundTrip relate the parser to the text of a request,
--    Response/Rendering the rendering to the text of a response, Server/Message the two, and
--    Server/Connected makes the handlers' calls on a connection.
--  - Net/Channel, Net/Epoller, Net/TimerQueue, Net/Connector and Net/TcpConnection: one class each, and
--    Net/Timer the times and timers (ham/base/Timestamp.h, ham/net/Timer.cc). Their child files reason
--    about what their names say; Net/TcpConnection/Steps has all that may happen to a connection, and
--    Net/TcpConnection/Polled what it asks of the poller.
--  - Net/Sockets: the addresses of ham/net/InetAddress.cc and what ham/net/SocketOps.cc makes of the
--    outcomes of system calls.
--  - Net/LoopPool and Net/LoopThread: the loops of `EventLoopThreadPool`
--    (ham/net/EventLoopThreadPool.cc), and how a thread of `EventLoopThread`
--    (ham/net/EventLoopThread.cc) hands its loop over and is joined, as a step relation.
--  - Net/Acceptor and Net/TcpClient (ham/net/Acceptor.cc, ham/net/TcpClient.cc): the descriptors of a
--    listening socket, and the connections of a client over the model of its connector.
--  - Net/EventLoop: the fields of `EventLoop` and what its functions do to them; Threads is the loop's
--    thread and any number of others as a step relation, Wakeup and Progress reason about it. Parts is
--    the loop with its poller, its timers and its channels: what it forwards to them, its constructor,
--    its destructor and a round over the active channels.
--  - Net/TcpServer: the record of `TcpServer` and its functions; Loops is a server with the functors in
--    its loops as a step relation, Names, Pending and Lifecycle reason about it.
--  - Sync/Monitor: a queue under a mutex with two conditions, as a step relation over the operations of
--    the queue, with the laws of such operations in Inv. Sync/BoundedBlockingQueue and
--    Sync/BlockingQueue (ham/base/BoundedBlockingQueue.h, ham/base/BlockingQueue.h) are two instances;
--    `CircularBuffer` stands for `boost::circular_buffer`, and `CircularBufferLaws` for its documents.
--  - Sync/CountDownLatch and Sync/ThreadPool (ham/base/CountDownLatch.cc, ham/base/ThreadPool.cc): one
--    step relation each.
--  - Exception (ham/base/Exception.cc): the stack trace of an exception; Frames and Trace reason about it.
--  - Net/Examples, Sync/Examples and Exception/Examples: concrete runs at which the theorems' conditions hold.
--
-- Conventions. An object is a record and a method takes and returns it. The outcome of a system call is
-- an argument. A callback of the user is an argument. What a class asks of its loop (queued tasks,
-- changes of channels, closed descriptors) is recorded in its state, in order. `size_t` has 64 bits,
-- and its sums and differences wrap; the maximal size of a string is 2 ^ 63 - 1. A signed integer that
-- is sent over the network is given by its bits. Times are microseconds since the epoch.
--
-- Threads. A step is what a thread does while it holds a mutex, or between two points at which another
-- thread can come in; the steps of all threads come in any order, without a bound on their number. A
-- thread that waits on a condition sleeps until it is notified, and a wait may also end by itself. A
-- thread that is to notify is counted until it does. Counters of events are not bounded.
--
-- Fuel. Only the loop of `parseRequest` runs on fuel: one unit for each round. More fuel than there
-- are unread bytes is enough from every state in which the loop ends, since each round that goes on
-- takes a line.
--
-- Not modelled: calls of a client from other threads; the init callback of a thread pool; system calls
-- that a wrapper only forwards, and the reading of clocks; logging and the other helpers of ham/base;
-- the library under thirdParty, the benchmarks and the examples.
pub mod Base
pub mod Exception
pub mod Net
pub mod Sync
