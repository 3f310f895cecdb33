-- ===== src/Lib.antt =====
-- KaIM: an instant messaging server on the network framework KaNet, with connection pools for Redis
-- and MySQL. The program's sources are in Net/, time/, Util/, DataBase/, ChatServer/ and MsgDefine/.
--
-- How the parts fit together: a poller knows channels, one for each file descriptor (KaPoller,
-- KaChannel); a connection owns a channel and two buffers and goes through four states
-- (TcpConnection); a chat session takes packets from a connection's input buffer (ChatSession) and
-- unpacks them (KaZlibUtil). An event loop owns a poller and also runs timers (EventLoop, TimerQueue),
-- and a pool has one for each thread (EventLoopThreadPool). A server owns an acceptor, gives each
-- connection that this accepts to a loop of the pool, and keeps it by name (TcpServer, KaAcceptor).
-- Handlers of messages borrow connections to the databases from pools (KaCachePool, KaDBPool), which
-- managers keep by name and set up from configuration files (KaCacheManager, KaDBManager,
-- ConfigFileReader), and read the results row by row (QueryResult).
--
-- Files. Each file that models code begins with the names of its sources; its records are their
-- classes, and its definitions have the names of their functions, in snake case.
-- - Prelude: what all share. The library's names, Boolean tests, slices of lists, `size_t`
--   arithmetic modulo 2 ^ 64, maps from numbers, texts as bytes, integers, decimal numbers as the C
--   library prints and reads them.
-- - Net/Buffer: Net/Buffer.h and Buffer.cpp. Its children: the invariant, the readable bytes under
--   each operation, how far the array grows, sequences of operations, and searches.
-- - Net/Channel, Net/Poller: Net/KaChannel.cpp, KaPoller.cpp, and what EventLoop.cpp forwards. The
--   children of Poller: channels as they are constructed, channels in step with the kernel, polling.
-- - Net/Callback: the callbacks of Net/KaCallBack.h, TcpConnection.h and TcpServer.h, each known by who
--   set it.
-- - Net/Connection: Net/TcpConnection.cpp. Its children: sequences of events, sending, opening, which
--   callbacks are called, and the setters, with `TcpSession` of Net/TcpSessin.h.
-- - Net/EventLoop: Net/EventLoop.cpp and EventLoopThread.cpp; its child: the loop over many rounds.
-- - Net/LoopPool: Net/EventLoopThreadPool.cpp; its children: the order of the loops, that
--   there is always one, and how often each comes.
-- - Net/Socket: Net/KaSocket.cpp; its child: what an address prints.
-- - Net/Acceptor, Net/Server: Net/KaAcceptor.cpp and TcpServer.cpp. The children of Server: a new
--   connection, a server from its start on, the names of connections, the map of connections as a
--   function from names, stopping, the callbacks of connections.
-- - Time/Timer, Time/Queue, Time/Loops: time/KaTime.cpp, TimeStamp.h and TimerQueue.cpp; Time/Text: what
--   a timestamp prints; Time/Ops, Time/Sorting, Time/Firing and Time/Counting: sequences of operations,
--   the order of the queue, what it runs and how often.
-- - Database/Pool: `KaCachePool` of DataBase/KaRedis/KaCachePool.cpp; its children: threads that borrow,
--   the order in which they are handed out, when they wait, and `KaCacheManager`, below it as a
--   function from names to pools and as it is set up.
-- - Database/Redis: `CacheConn` of the same file; Session has the connection and the frame of a
--   command, Commands and Maps the commands, Safety and Backoff sequences of them.
-- - Database/Mysql: DataBase/KaMysql/KaDBManager.cpp; the children: the manager and its setup,
--   queries, and Results: DataBase/KaMysql/MysqlBase.cpp, with rows, what is given back, names
--   and values below it.
-- - Util/Zlib, Util/Stream, Util/Config, Util/Log with Util/LogText, Util/Process: KaZlibUtil.cpp,
--   ProtocoIStream.cpp, ConfigFileReader.cpp, KaLog.cpp, and DaemonRun.cpp with KaSingleton.h in Util/. The children of
--   Log: what is written, calls of `output`, `uninit`, and the writing thread in turns with others.
-- - Chat/Session: ChatServer/ChatSession.cpp; Reading and Fronts: what its loop comes to, and what stands
--   in front of a text; Arrival: `handleRead` of a connection with the session as its callback.
-- - A module whose name ends in Tests has runs on small inputs.
--
-- State and outside. A function that changes an object takes its record and returns the new one. What
-- the kernel, hiredis, libmysqlclient or the clock answers is an argument of the call; zlib is a
-- record of functions, and a result set of libmysqlclient a state with a
-- function that fetches. Objects that the code shares by pointer are known by
-- their addresses, and a pointer to freed memory is a value of its own, so that using it can be told.
-- Callbacks, writes and commands are listed in the order in which they happen. A call under a mutex
-- is one step, and threads are interleavings of steps.
--
-- Fuel. The folding in `checksum` has three tests, enough for a sum of 32 bits; `write7BitEncode`
-- has five rounds for 32 bits and ten for 64, seven bits each. `LoadFile` has one round more than the
-- file has bytes, and each round takes one; so does `writeToFile` with a line. The loop of
-- `OnRead` has any fuel. `nextRow` is called until it fails, with more fuel than there are rows. The
-- event loop has no fuel: it runs over the list of what comes from outside, and its result says whether
-- it has returned. A number below its fuel is printed whole.
--
-- Not modelled: `EasyDebug`, which gives its `va_list` to `snprintf`, thread identities, the HTTP server and the chat server, which have no behaviour of their
-- own, generated code and examples. Allocation does not fail, and neither int64_t times nor the number of
-- connections, an int, overflow. Who owns an object by shared pointers, and so when it is destroyed, is not
-- modelled either.
pub mod Prelude
pub mod Util
pub mod Time
pub mod Net
pub mod Chat
pub mod Database
