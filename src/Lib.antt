-- ===== src/Lib.antt =====
-- ChatApp: a chat server and its terminal client, in C++ on Linux sockets and epoll.
--
-- The server has one listener thread and up to two worker threads. The listener accepts
-- connections, seats each client in a table of six slots, and hands it to a worker with few
-- clients, through a queue of texts and an event descriptor. A worker polls the sockets of its own
-- clients: it reads messages, runs the handshake of each client, and passes chat lines to the
-- listener through a second queue; the listener repeats them into the queues of the other clients,
-- from where the workers send them. The client process has a sending and a receiving loop.
--
-- Parts, and the code that they model:
--   Resources          include/resources.h: constants, actions, colours, the printed chat line,
--                      the reports on std::cerr
--   Message            include/Messages/Server_Message.h: get_concatenated_msg,
--                      construct_from_string, and the record Server_Message as ServerMessage
--   Text               std::to_string, std::stoi and std::getline, as far as the program uses them
--   Frame              include/Messages/MessageFrame.h: the receive buffer
--   Epoll              include/Polling/Epoll.h and src/Polling/Epoll.cpp: EpollManager
--   State              the objects of the server process: Client_Data, the members of Server and of
--                      ServerThreadManager, the identifier counter, the trace of system calls
--   Slots, Server      include/Server/Server.h: the table of clients, accept_client,
--                      disconnect_client, get_client_ref, send_msg, receive_msg
--   Workers, Manager   include/Server/ServerThreadManager.h: the array of workers,
--                      process_new_client, worker_client_disconnect, unicast_repeated
--   Server.Setup       the constructors of the server and listen_connections
--   Listener           listener_process_worker_to_listener_q, listener_loop and
--                      launch_listener_loop of ServerThreadManager.h
--   Handshake          process_client_state of that file
--   WorkerLoop         worker_process_listener_to_worker_q and worker_loop of that file
--   Client             include/Client/Client.h and src/Client/Client.cpp; Client.Setup is the
--                      constructor, Client.Threads the process with its two threads,
--                      Client.Dialogue what it may say
--   Startup            src/Client/Client_main.cpp and src/Server/Server_main.cpp
--   Kernel, Queues     what the program calls and does not contain: the system calls, and the
--                      thread-safe queue of the third-party library in include/Atomic_queue
--   Common             shared helpers: tests on numbers, lists, the native integers, and the monad
--                      of state with exceptions in which the member functions are written
--   Room               an abstract specification of the server: a room in which every member has
--                      the texts that wait for it, with no table, worker or queue
--   System             the threads together: the set-up of the server (System.Running), the
--                      predicates that every member function keeps, the states that rounds of the
--                      loops reach, the way of a chat line from one client to another
--                      (System.Delivery), and the handshake between both processes (System.Opening)
--   Samples, Tests     concrete objects, and the theorems applied to them
--
-- How the code is read. A member function is an action on the state, M App A, whose outcome is a
-- value, an exception of the program, or a fault, which stands for undefined behaviour such as
-- reading an empty optional. What was written before a throw stays written. A system call returns
-- what the record Kernel says for the calls made before, and is put on the trace; the laws of that
-- record are those of the manual pages. A queue is a parameter with the laws of a bounded first-in,
-- first-out queue; each of its calls is one atomic step. A reference to a client is the index of
-- its slot. An atomic int is its 32-bit pattern; other ints that the program keeps small are
-- natural numbers.
--
-- Bounds. A number has at most ten decimal digits, the fuel of to_string, which is enough for every
-- int. The loops of listener, worker and client wait for the outside world, so no fuel is enough;
-- they are given as runs of as many rounds as there is fuel. A drain of a client's queue is given a
-- number of rounds too, since other threads may push meanwhile.
--
-- Not modelled: what the server prints on std::cout, the start of threads (a call in the trace),
-- the interleaving of threads within one round of a loop, the third-party queue, the
-- wait of the server's destructor for the worker threads, and src/Server/Server.cpp, which the build
-- does not compile. An exception that nothing catches ends the process, with no destructor run.
pub mod Common
pub mod Text
pub mod Message
pub mod Resources
pub mod Frame
pub mod Kernel
pub mod Epoll
pub mod Queues
pub mod State
pub mod Server
pub mod Slots
pub mod Workers
pub mod Manager
pub mod Listener
pub mod Handshake
pub mod WorkerLoop
pub mod Client
pub mod Startup
pub mod Room
pub mod System
pub mod Samples
pub mod Tests
