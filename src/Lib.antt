-- ===== src/Lib.antt =====
-- Mini Wireshark: a packet capture and analysis tool on libpcap, with a Qt user interface.
--
-- A capture thread (class Worker) opens an interface, hands every packet to my_packet_handler,
-- and queues calls to the Pcap object: a row for the list, a copy of the packet, the state of the
-- thread. The Pcap object lives in the thread of the user interface. It delivers those calls,
-- reads capture files with a copy of the dissection of its own, saves stored packets, and shows a
-- packet as a hex dump and as a tree of header fields. The Capture model holds the rows and sorts
-- them; TreeItem and TreeModel hold the tree; NicList lists the interfaces, Open_List the files that
-- were opened before.
--
-- What models which part:
--   Base, Base/*          shared names, native numbers, lists, integers, chains of Option
--   Qt, Qt/ListModel      the text functions of Qt and inet_ntoa, as a record of parameters
--   Packet, Packet/*      Struct_in.h, PlatformCompat.h: loads of header fields at their offsets,
--                         on either byte order of the host; st_pkt and dump_data
--   Worker/Info, Handler  Pcap.cpp, Worker::my_packet_handler
--   Worker/Session        Pcap.cpp, Worker::set_Capture
--   Worker/Event          Pcap.h, class Worker, and the calls that it queues
--   Worker/Wire           an independent description of the supported packets, in wire terms
--   Pcap/State            Pcap.h, class Pcap, and the operations that queued calls run
--   Pcap/Info, Offline    Pcap.cpp, Pcap::packet_func and Pcap::pcapFile_Read
--   Pcap/Control, Save    Pcap.cpp, create_Th, stop_Th, reset_md, save_md; Save/* a capture that is
--                         saved and opened again
--   Pcap/Dumps, Hex       Pcap.cpp, Pcap::start_hax
--   Pcap/Checksum         Pcap.cpp, Pcap::compute_ip_checksum
--   Pcap/Tree/*           Pcap.cpp, Pcap::start_tree_md and macToString; Wire is an independent
--                         description of the tree, in wire terms
--   Pcap/Live, Sessions   reading a file and capturing live, compared
--   Pcap/Shows, Captures  what a file and a session add to the list, against Worker/Wire
--   Pcap/Reach            the states that clicks, messages and files lead to
--   Threads/System        the capture threads of Worker::set_Capture, the queue with its blocking call,
--                         create_Th, stop_Th and files, as one step relation
--   Threads/*             one capture in any interleaving (Solo, Handles, Lists), captures one after the
--                         other (Chain), the end of a thread (Ending), two unlucky orders (Races), and the
--                         steps of a thread against set_capture as one function (Refines,
--                         Traces)
--   Capture/*             Capture.h and Capture.cpp
--   Tree/*                TreeItem.h, TreeItem.cpp, TreeModel.h, TreeModel.cpp, the building of
--                         start_tree_md's tree on the heap (Grow), what a view reads (View, Shown),
--                         and the deletion of the tree before (Delete, Owner)
--   NicList               NicList.h and NicList.cpp
--   OpenList              Open_List.h and Open_List.cpp, over a database that is a parameter
--   OpenList/*            what SQLite promises (Table), and what the list shows
--   Support               Support.h
--   Tests/*               concrete inputs, and instances of the parameters
--
-- A definition has the name of the function that it models, in small letters (set_Capture is
-- set_capture, pcapFile_Read is pcap_file_read). A long function is cut into definitions along its
-- branches. State is passed explicitly. A read outside of a buffer, an index out of range and an
-- overflow of an int have no defined result in C++: the model then gives `none`. A queued call is
-- a message; messages are delivered in the order in which they were posted. Texts are lists of
-- characters. What libpcap, Qt and std::sort answer is an argument or a parameter, with the
-- documented behaviour that a theorem relies on as a named hypothesis: HexLaws, AddressLaws,
-- SortLaws, TableLaws and IsWorking, each with an instance in Tests.
--
-- In Threads a capture thread has a program counter (Pc), and Move is what it does next: libpcap may
-- open or refuse, deliver packets and end its loop at any time. Post is a call in the queue of the
-- interface's thread; a thread waits in its blocking call as long as that is in the queue. Solo is a
-- capture of one thread with its clicks; System has any number of threads.
--
-- Bounds and fuel: the checksum's carry loop runs on fuel 3, the loop over the lines of a dump on
-- fuel len / 16 + 2; the theorems on them show that this is enough. Counters are below 2 ^ 31 - 1.
-- The dump's offsets have four digits up to 65536 bytes, the snapshot length of the source.
-- The destructor of a tree runs on as much fuel as there are nodes.
--
-- Not modelled: main.cpp, the QML files, signals to the QML files, the resets that the models
-- other than Capture announce, and the npcap copy under third_party.
pub mod Base
pub mod Qt
pub mod Packet
pub mod Worker
pub mod Capture
pub mod Pcap
pub mod Threads
pub mod Tree
pub mod NicList
pub mod OpenList
pub mod Support
pub mod Tests
