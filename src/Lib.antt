-- ===== src/Lib.antt =====
-- The UWPX push server, in C++ under src/: what its messages are, how they are parsed and answered,
-- and what it keeps in its database.
--
-- A device sends JSON messages over TLS. tcp/messages/Parser.cpp makes a message of each, the push
-- server (server/PushServer.cpp) answers it, and the data of devices and of the nodes that push to
-- them stand in a Redis database (storage/redis/RedisClient.cpp). Others publish to such a node on
-- an XMPP server, of which xmpp/XmppClient.cpp is a client; what it is told of leaves by the
-- Windows notification service (wns/). main.cpp reads the configuration (storage/), and starts and
-- stops the threads of the server, of its clients and of the console (io/).
--
-- Common: results with the C++ exceptions and the failed assertion as errors; a reader of JSON that
-- fills in an object and stops where from_json returns false (Common/Outcome); actions on a state
-- (Common/Action), and what they keep where they throw (Common/Sound); integers; std::to_string,
-- std::strtoll and std::stoi (Common/Decimal).
-- Json: the JSON library as a record of operations with its documented laws. Json/Tree fills it.
-- Messages: src/tcp/messages, one file per class. Each has the record of its fields, its
-- constructors (`of_json` from JSON, `create` from values), `from_json` and `to_json`. `blank` is
-- the object before from_json. Messages/Parser is parse and parse_json; `ndebug` tells a build
-- without assertions from one with them.
-- Redis: the server and its client library as a record of commands with their documented effect.
-- What time does to the keys is a record of its own, Clock, over such a server: a wait of some
-- seconds removes the keys whose timeout is over and shortens the other timeouts. Redis/Memory
-- fills both.
-- RedisClient: src/storage/redis/RedisClient.cpp, over any such server. RedisClient/Removal is what
-- set_push_accounts deletes, /Typed which keys hold strings and which lists (/Typed/Collision the
-- keys of accounts of two devices), /Storing what it stores, /Accounts the whole of
-- set_push_accounts, /Nodes what is found at a node after it, /Loading what is read of a device
-- before it, /Channel set_channel_uri and /WnsToken the token of the notification service.
-- RedisClient/Expiry and its child are what waits between the operations do to the keys of accounts.
-- RedisClient/Healthy says of a database that the handlers of the server can work on it, and what
-- the operations that change it leave of that. RedisClient/Registry is what the client promises, a
-- registry of devices and nodes; /Refines relates set_channel_uri and set_push_accounts to its
-- requests, /History any sequence of them. RedisClient/Program has the same operations command by
-- command, for threads that share the database: /Operations the operations and that each is the one
-- of RedisClient where no other thread is between, /Local what a command changes, /Interleaving two
-- threads whose commands are mixed in any way and /Schedule such a mix that is run, /Rely a thread
-- that only reads, /Footprint and /Undisturbed a notification while another device registers,
-- /Renewal one while its device renews the channel.
-- Wns: src/wns, over any service and clock. Wns/Token is the token, Wns/Requests which requests are
-- made and what a success means, Wns/Restore the token that is stored and loaded, Wns/Sound and its
-- child how its operations end on a healthy database.
-- Xmpp: src/xmpp/XmppClient.cpp: setup_push_node and delete_push_node, by what they send.
-- Xmpp/Strophe is libstrophe as a record of operations on stanzas with their documented laws,
-- Xmpp/Strophe/Tree fills it. Xmpp/Build makes the stanzas, /Build/Addressed is what they ask for.
-- Xmpp/Handler is message_handler with the two pushes, over any state of the server: /Form and
-- /Counted are the counts of a notification, /Event the messages that are acted on. Xmpp/Lifecycle
-- is start, stop and thread_run with the context; its children relate it to the lifecycle of the
-- server and say what stop comes to.
-- PushServer: what src/server/PushServer.cpp keeps and calls, and the answers of
-- src/tcp/ClientSslSession.cpp. PushServer/Accounts is set_push_accounts, with /Accounts/Placing
-- and /Synchronised the nodes that it makes and deletes, /Stored and /Returns what a run comes to
-- and that it returns, /Collected and /Named its accounts, /Handlers the other handlers of messages
-- and notifications, /Replies and /Errors what they promise, and /Delivery where a notification
-- goes; /Lifecycle is start, stop and thread_run, where a thread that hangs in a call, or whose
-- call ends the process, is one that takes no further step, /Setup check_setup_wns, and
-- /Notifications the way from a message of the XMPP server to the channel of a device, through the
-- XMPP client, the database and the handlers. /Available and its children are about how the
-- handlers of messages and of notifications end on a healthy database; /Running is the server from
-- the start of thread_run on, with whatever its threads are given to do one after the other and
-- with time that passes in between. /Registration is set_push_accounts from the text of its message
-- on, /Renewal set_channel_uri. /Session is what src/tcp/ClientSslSession.cpp does with what it
-- receives, and /Session/Wire the bytes that it writes and a reader of them. The reader is no code
-- of the repository: a comment of send says that the NUL is the end of a message, and the reader
-- goes by that. `set_channel` is PushServer::set_channel_uri, `handle` the on_message_received that
-- takes a message.
-- TcpServer and IoThread: start, stop and the threads of src/tcp/TcpServer.cpp and
-- src/io/IoThread.cpp. TcpServer/Refines relates the former to the lifecycle of the server; the
-- latter is stopped as src/main.cpp does it.
-- Main: src/main.cpp: the arguments (/Arguments) and the signals of a run without input (/Signals).
-- Configuration: the structures of src/storage/ConfigurationStorage.hpp and their JSON form in
-- src/storage/Serializer.cpp. Configuration/Storage is the file at a start,
-- Configuration/Serializer the templates of src/storage/Serializer.hpp.
-- CryptoUtils: the random texts of src/utils/CryptoUtils.cpp, over any random numbers.
-- Tests: each theorem at a concrete input.
--
-- Texts are the native strings, and `int` is the type ℤ without its bounds: the JSON library's
-- narrowing of a number to `int` is inside the parameter `get_int`; std::stoi has the bounds.
-- Recursion is structural but for `to_string_nat`, whose fuel, the number itself and one, exceeds
-- the count of its digits. The rounds of the pause in Xmpp/Lifecycle are the 20 of the code.
--
-- Time passes, and keys of the database expire, only where a Clock waits: in RedisClient/Expiry and
-- its child, and between the events of PushServer/Running. Everywhere else the database is one in
-- which no key expires while the operations of the theorem run, and a timeout is a number that a
-- key has. No command and no handler takes time.
--
-- Not modelled: keys that expire while a handler runs, or while threads share the database; threads
-- inside of a handler but for its operations on the database (the handlers of PushServer/Handlers
-- run alone), the log, lost connections to the database, exceptions thrown for want of memory, and
-- what PROJECT.json lists as such.
pub mod Common
pub mod Json
pub mod CryptoUtils
pub mod Messages
pub mod Redis
pub mod RedisClient
pub mod Wns
pub mod Xmpp
pub mod PushServer
pub mod TcpServer
pub mod IoThread
pub mod Main
pub mod Configuration
pub mod Tests
