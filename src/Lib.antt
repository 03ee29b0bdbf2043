-- ===== src/Lib.antt =====
-- chaos-in-multiplayer is a small C++ library for games: a server and a client that exchange
-- packets through Valve's GameNetworkingSockets. This is a model of the library's code and of its two
-- example programs, with theorems about it.
--
-- How the program hangs together. A `Server` opens a listening socket and a poll group, and its
-- `updateConnection`, which the application calls again and again, hands received packets and
-- changes of connection status to two callbacks, and then reads the lines that were typed. The
-- server keeps a map from handles to `ClientConnection`s, which the application fills from its
-- callback. An `InputController` reads the standard input in a thread of its own. A `Client` is
-- one connection to a server, with the same two callbacks.
--
-- Which file is about which code. Camel case there is snake case here (`closeClientConnection` is
-- `close_client_connection`), and a file's child modules prove what their names say.
--   Packet            Include/Common/Packet.h, Source/Common/Packet.cpp
--   Status            Include/Common/ConnectionState.h, ConnectionStatus.h, ConnectionStatusChange.h
--   ClientConnection  Include/Server/ClientConnection.h, Source/Server/ClientConnection.cpp
--   UnorderedMap      `std::unordered_map`, as Source/Server/Server.cpp uses it
--   InputController   Include/Common/InputController.h, Source/Common/InputController.cpp: the
--                     queue; the polling thread is InputController/Polling
--   Server            Include/Server/Server.h, Source/Server/Server.cpp: the state; the methods are
--                     in Server/Clients, Sending, Opening, Packets, StatusChanges, UserInput,
--                     Updating and Closing, and Server/Session is any history of them and
--                     of calls on client connections, moves apart;
--                     Server/Directory is the abstract specification of the registry, and
--                     Server/Instances has two servers in one process
--   Client            Include/Client/Client.h, Source/Client/Client.cpp, with Client/Packets,
--                     StatusChanges and Sending; Client/Session is any history of the calls of an
--                     initialised client, but `closeConnection`
--   ExampleServer     Examples/ExampleServer/ExampleServer.cpp: the loop of `main`; its callbacks are
--                     in ExampleServer/Callbacks, and `main` is in ExampleServer/Main
--   ExampleClient     Examples/ExampleClient/ExampleClient.cpp
--   NetworkingUtils   Include/Common/NetworkingUtils.h, Source/Common/NetworkingUtils.cpp
--   Receiving         what the two loops over packets share, and Reporting, the two reports of status
--   Network           what is on its way until it arrives, and Exchange, a client and a server over it
--   Platform, Program what stands around the code: the networking library, and how C++ runs
--   Base              shared names and lemmas
--   Examples          concrete values to which the theorems apply
--
-- The networking library is not in the repository. It is the parameter `Platform Env`: a type of
-- states and a function for each call that the code makes; what NetworkingUtils calls of it, and of
-- the C++ library, is the parameter `Utilities Env`. What the two callbacks of an application
-- do is a parameter too, as a callback may call any method. An `Action` takes a world (the object, the
-- platform's state, and a trace of the calls, log lines and callbacks so far) and gives a result or
-- a `Fault` with the world as it was left: a failed assertion, an uncaught exception, `std::exit`,
-- `std::terminate`, or undefined behaviour. Assertions are kept, as in a debug build. A member that the
-- code does not initialise is `none`, and reading it where the code needs it is undefined. Program/Keeps,
-- Safe and Fails have a rule for each way to build an action: what it keeps true, which faults it
-- avoids, and when it cannot return.
--
-- Bounds and fuel. The loop over packets counts in an `int`; its fuel is the greatest `int` and two,
-- and a round that would pass that `int` is undefined, so that the fuel is enough. The loop over
-- typed lines has a round more than there are unread lines. The decimal digits of `n` are written
-- with fuel `n + 1`, as each round divides by ten. The loop of the example server has the fuel that
-- it is given, and so has the loop of the example client that waits for the connection; no fuel is
-- enough where they do not end.
--
-- What is not modelled. Memory that runs out (`std::bad_alloc`, as `Packet`'s `resize` may throw).
-- The `std::memcpy` of no bytes from an empty vector is taken to be defined. Moves of the entries
-- of the server's map through the references that it hands out. The branches of
-- Source/Common/NetworkingUtils.cpp for builds without `STEAMNETWORKINGSOCKETS_OPENSOURCE`; the
-- build files. The `rand` of Examples/ExampleServer is a parameter. Outside Server/Instances there
-- is one server and one client to a process, so that a callback of the networking library reaches
-- the object that asked for it. The methods of the queue are atomic, as each holds the mutex; the
-- flag `exit_requested` is read as if it were atomic.
pub mod Base
pub mod Client
pub mod ClientConnection
pub mod ExampleClient
pub mod ExampleServer
pub mod Examples
pub mod Exchange
pub mod InputController
pub mod Network
pub mod NetworkingUtils
pub mod Packet
pub mod Platform
pub mod Program
pub mod Receiving
pub mod Reporting
pub mod Server
pub mod Status
pub mod UnorderedMap
