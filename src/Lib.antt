-- ===== src/Lib.antt =====
-- A model of the chat server LHJSample and the theorems about it.
--
-- The program. I/O threads accept connections, receive bytes and complete sends (ServerNetwork).
-- They hand what they receive to the packet thread (PacketManager) over two queues: bytes go into
-- the packet buffer of the user of the session, connections and disconnections into a queue of
-- system packets. The packet thread takes one packet at a time and calls the handler that the state
-- of the user binds to the packet's id. The handlers log users in (UserManager, AccountDB), list
-- the rooms, and let users enter rooms, leave them and chat (RoomManager, Room). `main` reads the
-- configuration (Config), makes and starts the server, and stops it at the line "quit". A console
-- client (LHJSampleClient) sends words to the server; a client with windows (LHJSampleClientCS)
-- logs in, lists rooms, enters and leaves them and chats.
--
-- The files, and the code in LHJSample/ that they are about:
--   Common       shared names, lists, bytes, signed numbers, and the monad `Effect` of methods that
--                change a state or fault, with the rules for what a method keeps (Effect/Keeps).
--   Packet       Packet.h and ResultCode.h; Packet/Framing: the lengths in the packets.
--   User         User/User.cpp and the Enter of the classes in User/State; User/Buffer: SetPacketData
--                and GetPacket; User/Bindings: which handlers a state lets a request reach.
--   AccountDb    DB/AccountDB.cpp over an abstract ODBC driver; AccountDb/Connection: Init and the
--                destructor.
--   World        the shared objects and the primitives that change them; World/Inversion: what a
--                primitive that ended has done.
--   Rooms        Room/Room.cpp and Room/RoomManager.cpp; Rooms/Broadcast and Leaving: what members
--                are sent.
--   Accounts     User/UserManager.cpp; Accounts/Login: the login check.
--   Session      the handlers of User/State and the methods of User that reach other objects;
--                Session/Guards: rooms that do not exist; Session/Chat.
--   PacketManager  PacketManager.cpp.
--   ChatServer   ChatServer.cpp: how the objects are made, and histories of the server.
--   Invariants   an interface of what an invariant has to survive, the proof that every method then
--                keeps it (Handlers, Histories, Derive, RoomChanges, AccountChanges, Assemble), and
--                its instances.
--   Network      ServerNetwork/ClientInfo.cpp: the sessions over abstract Winsock calls;
--                Network/Server: the rounds of the worker and accepter threads; Network/Lifecycle:
--                setup, start, stop and the loops of IOCPServer.cpp; Calls and SendQueue: the order
--                of sends, with Sending; Kept and Ordered: a round keeps it; Events and Places: what a
--                round calls and which sessions are marked as used; Total: which rounds end; Reuse.
--   Redis        RedisManager.cpp: the two queues of tasks.
--   Server       the sessions and the objects of ChatServer together, as rounds of all threads;
--                Refinement to the histories of ChatServer; Delivery, Order and Wire: from the
--                messages of the packet thread to the buffers given to WSASend; Places.
--   Config       Config/ConfigLoader.cpp over an abstract XML library; Sections and Database: the
--                loops over the children; Loading: the whole method.
--   Program      main.cpp, and Run, End and the destructor of ChatServer; Startup, Service and
--                Shutdown: before, while and after the threads run.
--   World/Safety, Rooms/Safety, Session/Safety, PacketManager/Safety, ChatServer/Safety: which
--                methods, requests, rounds and histories end, from the primitives up.
--   Client       LHJSampleClient/IOCPClient.cpp and main.cpp; Words: what it sends; Protocol: what
--                the server makes of it.
--   FormsClient  LHJSampleClientCS: Packet.cs; PacketBuffer: PacketBufferManager.cs; Form and
--                Dispatch: Form1.cs with the calls of ClientNetwork.cs as inputs; Fields: texts in
--                fields of zeros; Requests and Entering: from a button to the server's handler;
--                Receiving and Delivery: from a stream in pieces to the queue of packets; Notices:
--                what the window shows of the server's packets.
--   Examples     concrete inputs for the theorems.
--
-- Conventions. A method is a function from the state to a result and the state after it, or to
-- `none`, a fault: an access outside an array, a null pointer, or an empty function that is called.
-- Whoever shows that a method ends shows that it does not fault. A pointer to a user or a room is
-- its position in the pool or the list of rooms. Texts and memory are lists of bytes. `UINT32`
-- positions and `UINT16` counts and sizes keep their wrap-around. A loop of the code runs over a
-- list, and a history is a list of steps. Only the loops over the siblings in an XML document run
-- on fuel: one unit for each child of a section is enough.
--
-- A history is a list of calls of the threads on the shared objects, each taken as one step. The
-- code locks the queues of the packet thread but not the packet buffer of a user, which an I/O
-- thread and the packet thread both change; the model takes these calls as atomic too.
--
-- Assumptions on what is not in the repository: the ODBC driver, Winsock, the XML library and the
-- Redis connection are parameters, as are the byte `Type` of a packet on the stack, which no code
-- sets, and the bytes that follow the end of a `std::string`. `CopyMemory` on overlapping ranges
-- moves the bytes.
--
-- In the whole server, the calls that a round makes into the other half are made at its end. A
-- sequence of rounds may hold rounds of a thread whose flag has been cleared meanwhile, since a
-- thread that is past the test of its loop still makes its round; what holds after all sequences of
-- rounds holds after those of a run. The flags are tested where a loop is modelled by itself
-- (`woker_thread`, `accepter_loop`). The joins of DestroyThread are taken to return: that a thread
-- wakes up when its port or its socket is closed is up to Winsock.
--
-- A thread of RedisManager takes a task under a lock and releases it later outside, as a step of its
-- own.
--
-- The loop of the windows client that reads packets from its buffer runs on fuel: one round for each
-- byte that is there, and one, are enough, since a packet has at least five. UTF-8 is a parameter;
-- a `string` of that client is the list of its UTF-16 units.
--
-- Not modelled: the release of memory, the ports of completion as objects, output on the console
-- but for what the test client prints, the log and the layout of the windows client, the types that
-- no code uses (RawPacketData, RedisLoginReq, RedisLoginRes, State.h), and the libraries in
-- thirdparty/.
pub mod Common
pub mod Config
pub mod Packet
pub mod User
pub mod AccountDb
pub mod World
pub mod Rooms
pub mod Accounts
pub mod Session
pub mod PacketManager
pub mod ChatServer
pub mod Invariants
pub mod Network
pub mod Server
pub mod Program
pub mod Client
pub mod Redis
pub mod FormsClient
pub mod Examples
