-- ===== src/Lib.antt =====
-- The BSDVR routing protocol for ns-3: a distance vector protocol whose routes carry a binary state,
-- active or inactive. This library models its control plane, its
-- data plane, its queues, its messages and what it does about interfaces.
--
-- A node keeps a forwarding table and, for each neighbor, the distance vector that the neighbor has
-- reported (model/bsdvr-rtable.*). Hello messages keep the list of its neighbors alive
-- (model/bsdvr-neighbor.*), whose callback reports those that are gone. Updates change the distance
-- vectors; from these the forwarding table is computed again, and its changes are sent on
-- (model/bsdvr.cc). A reply that has to wait stands in the pending reply queue, and a packet without
-- a route in the packet queue (model/bsdvr-rqueue.*).
--
-- Net             what the program uses of ns-3: addresses, routes, timers, and the answers of the
--                 node's IP stack, a record World that the definitions take as an argument
-- RoutingTable    RoutingTableEntry and RoutingTable. Entries share an Ipv4Route through a pointer:
--                 the routes are a heap, and an entry has the number of its route
-- Neighbors       Neighbors: IsNeighbor, GetExpireTime, Update, Purge, ProcessTxError
-- Packet          TypeHeader, UpdateHeader, HelloHeader over the buffer's reads and writes, a record
--                 Wire with the laws IsWire
-- ControlPlane    isBetterRoute, RemoveFakeRoutes, UpdateDistanceVectorTable,
--                 RefreshForwardingTable, ComputeForwardingTable
-- PendingReplies  BsdvrPendingReplyQueue
-- PacketQueue     BsdvrQueue. The constructor of Status does not set its fields: what they hold for
--                 an argument is the parameter status_of, one value for each argument, the same
--                 at every construction. No theorem assumes that it keeps the arguments apart
-- Protocol        the state of RoutingProtocol, SendUpdate and the updates that are sent to several
--                 neighbors, and the callbacks on a link failure and on an expired reply.
--                 Protocol/Handlers: SendHello, HelloTimerExpire, ProcessHello, RecvHello,
--                 RetransmitToNeighbor. Protocol/Receive: RecvBsdv, RecvUpdate, SendPacketFromQueue.
--                 Protocol/Data: RouteOutput, LoopbackRoute, DeferredRouteOutput, RouteInput,
--                 Forwarding, with the tag in Protocol/Data/Tag. Protocol/Start: the constructor,
--                 the setters, Start, DoInitialize and DoDispose. Protocol/Interfaces: SetIpv4 and
--                 the events of interfaces, addresses and lost frames.
--                 Protocol/System: the runs of a node, a step for each call that ns-3 makes
--                 (Reach), and the runs of a node that keeps its interfaces (Alive).
--                 Protocol/Messages: the packet of a header. Protocol/System/Exchange: two nodes.
-- Helper          BsdvrHelper::AssignStreams (helper/bsdvr-helper.cc)
--
-- The modules below these hold their theorems; each Tests module applies them to the values of
-- Samples. Base has the names and the lemmas on lists and maps that all share.
--
-- A std::map is a list sorted by its keys, and every loop is a recursion on the list that it goes
-- over. The one loop without such a list is that of SendPacketFromQueue, on fuel: it need not end,
-- and no fuel is enough then. Numbers are those of the source where they fit; where the source
-- wraps, the remainder is written out. Times are whole numbers. A callback is a function on the
-- state of its caller, called where the source calls it, and `none` is the null callback. An
-- operation of the protocol returns `none` where the source fails an assertion, dereferences a null
-- pointer or runs into undefined behaviour. An object that the source creates as a local variable
-- and assigns before it is read is not created.
--
-- A node is called ready if it has IP and a loopback device; the forwarding table has an entry for the
-- loopback address; every other entry, and every entry of a distance vector, goes out by an interface
-- with a socket; each address with a broadcast socket has a socket; the pending reply queue has room for
-- an entry, is within its length, and has no pair twice and no reply about the loopback address; and the
-- packet buffer is within its length, with no packet twice for one destination.
--
-- A node is called alive if it was constructed, with any attributes, was installed with a maximum length
-- of the pending reply queue that is not 0, and has lived through any events since, but that no interface
-- went down, no address was removed, it was not disposed of, sockets that were made had new numbers, no
-- maximum length of a queue was set below what the queue held, nor one of 0 for the pending reply queue,
-- and each packet that it handled was no update that says that the loopback address is inactive, and
-- found the stack with the interface of each of the node's addresses.
--
-- Not modelled: output to streams, the attributes and the registration with ns-3, the rest of
-- helper/, which calls the object factory of ns-3, and examples/ and test/, which hold no logic of the
-- protocol.
pub mod Base
pub mod Net
pub mod RoutingTable
pub mod Neighbors
pub mod Packet
pub mod ControlPlane
pub mod PendingReplies
pub mod PacketQueue
pub mod Protocol
pub mod Samples
pub mod Helper
