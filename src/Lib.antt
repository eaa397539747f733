-- ===== src/Lib.antt =====
-- Verification of the virtual gateway: a program that takes the place of a gateway on an Ethernet,
-- answers ARP for it, and shapes, filters and loses the packets that pass through it.
--
-- Parts and files (paths from the repository's root):
--   src/protocols/*.h, the packet headers and checksums: Protocols and its children. A header is
--     its fields at fixed offsets in a list of bytes; a read past the end gives `none`.
--   src/arp_client.h, the ARP client: Arp (state and handlers), Arp/Frames (the frames sent),
--     Arp/Laws. The class template's parameter `Transport` is left out: a handler gives the list of
--     the frames that it passes to `transport.send`.
--   src/protocols/dhcp.h and src/dhcp_client.h, the DHCP client: Protocols/Dhcp (the header),
--     Dhcp (state, messages, `dispatch`), Dhcp/Options (the loop over the options, on an explicit
--     memory), Dhcp/Memory, Dhcp/Frames, Dhcp/Laws, Dhcp/Configured. A packet given to `dispatch` is the
--     memory that can be read from its start on.
--   src/statistics.h, counters over time frames: Statistics.
--   src/npacket.h and `packets_raw_queue` of src/nqueue.h, the packet queue: Packets.
--   `qdisc` and its subclasses in src/nqueue.h, the disciplines: Qdisc (the virtual call and the
--     factory), Qdisc/Rloss, Qdisc/Band, Qdisc/Delay.
--   src/nfilter.h, the packet filter: Nfilter, Nfilter/Ip, Nfilter/Port, Nfilter/Accepts.
--   `nqueue` of src/nqueue.h, a filter with a packet queue and disciplines: Nqueue.
--   `queue_dispatcher` of src/nqueue.h, the queues by name, the commands on them, arrivals and
--     the sending thread: Dispatcher, Dispatcher/Table (the `std::map`), Dispatcher/Commands,
--     Dispatcher/Thread (commands, arrivals and the thread as steps), Dispatcher/Laws, Dispatcher/Order,
--     Dispatcher/Mass and Dispatcher/Conserve (what goes through it; with Packets/Mass, Qdisc/Mass and
--     Nqueue/Mass), Dispatcher/Printed (what `print` shows, with Qdisc/Describe and
--     Nfilter/Describe), Dispatcher/Steady (that it stays, with Qdisc/Steady),
--     Dispatcher/Locks (the loops queue by queue, under the lock of src/hl/concurrency.h),
--     Dispatcher/Atomic and the files below it (such a run as whole steps).
--   src/router.h, packets readdressed and handed to the queues: Router. Its static buffer is part
--     of the state.
--   src/virtual_gw.h, the server of the configuration protocol: Vgw (the commands, the reply,
--     `dispatch`), Vgw/Frames (the frames of the replies).
--   src/gate_way.cpp, `main`: Gateway (its loop's body for a packet), Gateway/Task (what the command
--     line asks for), Gateway/Main (the loop over reads and console events, and the way out),
--     Gateway/CtrlBreak (src/ctrl_break_handler.h), Gateway/Laws, Gateway/Runs, Gateway/Stops,
--     Gateway/Operates and Gateway/Histories (the loop as a history of the dispatcher,
--     with Vgw/Operates and Router/Pushes), Gateway/Together and Gateway/Alone (the loop beside the
--     dispatcher's thread, and while that stands still).
--   src/pcap_wrapper.h, the devices: Pcap, over the driver's calls as a record of functions.
--   src/net, sockets: Net/Winsock (the calls of Windows as a record of functions over an unknown
--     state), Net/Error (`net_exception`), Net/Address, Net/Run (methods that return, throw or are
--     undefined, one after another), Net/Startup (`StartWinSock`), Net/Socket, Net/Transfer and
--     Net/Close (the methods), Net/Method (all methods as values), Net/Calls, Net/Respects,
--     Net/Sessions, Net/Stamps and Net/Timed (`last_transfer`), Net/Graceful, Net/Balance, Net/Laws.
--   src/client.h, the client of the configuration protocol: Client, Client/Message (its messages),
--     Client/Laws and Client/Exchange (with the server).
--   `ip_address::c_str` in src/protocols/ip.h: Nfilter/Printed.
--   src/vmac.h, the gateway's own MAC address: Vmac.
--   src/hl/params.h, options read by regular expressions: Hl/Params, Hl/Numbers (what the
--     patterns of numbers mean, for a matcher that goes by their meaning).
--   src/hl/smart_ptr.h, counted pointers: Hl/SmartPtr, Hl/SmartPtr/Counts, Hl/SmartPtr/Balance,
--     Hl/SmartPtr/Cells.
--   src/hl/thread_object.cpp: Hl/Thread, and `event` of src/hl/concurrency.h: Hl/Event, over
--     the calls of Windows. src/timer2.h: Hl/Timer.
--   Common holds what they share: Boolean tests, lists and memory areas, `int` with wrap-around,
--     unsigned words with their byte order, exceptions as values, texts as character codes.
--
-- How the parts interact: a packet that arrives is offered to the queues of the dispatcher in the
-- order of their names; a queue's filter decides, and its packet queue takes the packet or counts it
-- as lost. The thread asks each queue in turn, whose disciplines may drop packets and must all agree
-- before the front packet is sent. Every operation of the dispatcher runs under one lock, which the
-- thread takes twice in a round, so what stands under the lock is a function from state to state, and
-- an interleaving is a sequence of those; Dispatcher/Locks has the moves within them.
--
-- Machine: 32-bit `int`, `size_t` and `unsigned long`, little endian. `int` arithmetic wraps.
--
-- Parameters: the regular expressions of the GNU library (a matcher, given as a function from the
-- pattern and the text to the groups), the calls of Winsock and of the pcap driver, the values of
-- `rand`, the readings of the clock, and what an uninitialised member holds.
--
-- Fuel: the loops of `can_pop` run on the number of waiting packets and one more (`band`), or two more
-- (`rloss`). Each round but the last removes a packet, or is the one round that keeps it. The loop over
-- the DHCP options runs on 151: each round moves its index on by at least 2, up to 300. The fuel
-- of the loop of `graceful_shutdown` is a parameter: where the clock shows no more than `lag`
-- milliseconds too little and each of its readings takes one of `unit` units of a millisecond,
-- (1000 + lag) * unit + 1 rounds are enough for its second.
--
-- Not modelled: printing, but for what the command `print` shows; src/timer.h and src/udp_client.h,
-- which no file includes (the latter does not compile); the copies of the GNU regex library and of the
-- pcap headers.
pub mod Common
pub mod Hl
pub mod Protocols
pub mod Arp
pub mod Dhcp
pub mod Statistics
pub mod Packets
pub mod Qdisc
pub mod Nfilter
pub mod Nqueue
pub mod Dispatcher
pub mod Router
pub mod Vgw
pub mod Gateway
pub mod Pcap
pub mod Net
pub mod Client
pub mod Vmac
