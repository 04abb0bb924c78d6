-- ===== src/Lib.antt =====
-- CatchB watches the cameras of a network: it captures their packets, scores their fingerprints and
-- blocks a camera's switch port when its fingerprint changes. This library models the core that
-- the program's threads are built on, and the scoring of packets.
--
-- The parts and their files (paths in the repository on the right):
--
--   Base, Run, Ret   shared names; runs with faults, blocking and fuel; results of lib/ftm_ret.h
--   FtmList          lib/ftm_list.c, the doubly linked list: FTM_LIST_init is `init`, and so on; search,
--                    removal and iteration are in FtmList/Access
--   Queue            lib/ftm_queue.c, a list used first in, first out
--   Msgq             lib/ftm_msgq.c, a queue with a semaphore that counts its messages
--   Buffer           lib/ftm_buffer.c, the ring buffer of the SSH and telnet clients
--   Timer            lib/ftm_timer.c, the timers and the comparator of the event timers
--   Events           the event timers of lib/ftm_timer.c and the loop that calls the expired ones
--   Base64           lib/ftm_base64.c
--   Score            lib/ftm_score.c: the IP part in Score, the walks over the TCP options in
--                    Score/Options, the points in Score/Window, FTM_SCORE_processTCP in Score/Tcp
--   Analyzer         lib/ftm_analyzer.c, FTM_ANALIZER_PCAP_calcScore
--   Analyzer/Process FTM_ANALYZER_process; the text of the fingerprint is in Analyzer/Print
--   Statistics       the statistics list of lib/ftm_catchb.c, FTM_CATCHB_addStatistics and the others
--   Time             lib/ftm_time.c; the reading of texts is in Time/Parse
--   Table            lists of pointers to blocks of memory, as the callers of lib/ftm_list.c keep them
--   Switch           the access control of lib/ftm_switch.c
--   Detector         the controls of lib/ftm_detector.c, which tell a switch to block an address
--   Cctv             lib/ftm_cctv.c
--   Analyzer/Watch   the ids that lib/ftm_analyzer.c watches, FTM_ANALYZER_CCTV_attach and detach
--   Switches         the list of switches of lib/ftm_catchb.c, FTM_CATCHB_addSwitch and the others;
--                    their two messages are in Switches/Loaded
--   Alarms           the alarms of lib/ftm_catchb.c, FTM_CATCHB_addAlarm and the others
--   Hash             FTM_HASH_SHA1 of lib/ftm_utils.c
--   Ssid             lib/ftm_ssid.c, the keys of the clients' sessions
--   Server           lib/ftm_server.c, FTM_SERVER_serviceCall and the services of the keys;
--                    the sessions of its connections are in Server/Sessions
--   Mem              lib/ftm_mem.c, the tracing of FTM_MEM_malloc and FTM_MEM_free
--   Peer             a module of the program that only answers calls, such as the database
--   Core             the cameras of lib/ftm_catchb.c, FTM_CATCHB_onCreateCCTV and the other handlers of
--                    messages; a camera's status is in Core/Status, its fingerprint and its
--                    properties are in Core/Settings, the check of the list against the database is
--                    in Core/Check, and the dispatch of FTM_CATCHB_process, the messages of the
--                    switches aside, is in Core/Messages
--
-- They interact by calls, as in the source: a message queue calls a queue, which calls a list; the
-- analyzer orders a capture and scores its packets one by one; the statistics, the cameras, the
-- watched ids, the switches, the alarms and the entries of a switch are lists of pointers to blocks of
-- memory. The core's handlers call the analyzer's list, the database, the notifier and the detector;
-- the detector tells the switch. The server asks the keys whether a request may be served.
--
-- State. A list is a record whose `prev`, `next`, `item` and `live` are functions from the address
-- of an entry, with the head at address 0; the ring's entries, in order, are the sequence of
-- `IsList`, and `Shows` gives the items. A ring buffer keeps its memory as a function from offset
-- to byte. The numbers of FTM_UINT32 wrap around with `% 2 ^ 32`. A call of `malloc` is an argument:
-- `none`, or an address that the theorems ask to be fresh. The clock is an argument of the timers.
--
-- Runs. `fault` is an access outside live memory or an array, or a second free of a block, which the
-- tracing refuses as long as nobody has got the address again, `blocked` a sem_wait that nobody ends, and
-- `out_of_fuel` a loop that has not ended. The loops over a list have the count and one round more
-- as fuel, which is enough for a well-formed ring. The walks over the TCP options have the
-- fuel as an argument: more rounds than there are bytes of options are enough when each option
-- moves the index ahead. Every call is one step of a sequence of calls: the interleaving of two
-- threads inside one operation is not modelled.
--
-- The calls of the core that leave it are recorded in order, and each is answered by a function of all
-- calls up to then: the database, the notifier and the detector may answer as they like. What
-- FTM_SWITCH_setAC says after its script and its session is an argument. A text is the list of its
-- characters up to the NUL; strptime, mktime and localtime are parameters, and so
-- is the digest of lib/libsha1.c. A block of FTM_MEM_malloc is clear, as it is while its tracing is on,
-- which the programs switch on first.
--
-- The score's double counts in tenths, so its rounding is not modelled. The sums of the base 64
-- code stand for the source's `|` of numbers that share no bit. The assertions of the source are
-- taken to hold: no NULL pointer is passed to an operation.
--
-- Not modelled: the third-party code in libssh, libtelnet, lib/libaes.c, lib/libsha1.c and
-- lib/gzip.c, of which the digest of lib/libsha1.c is a parameter; lib/ftm_db.c, which is SQL text for
-- SQLite, and the reading and writing of the configuration with a JSON library; the notifier, the
-- logger, the sessions with switches, the client, mail, ping and capture, which are I/O; the programs
-- in catchb, client and cgi, which are commands and web pages. Of modelled files: the loops of the
-- threads in lib/ftm_catchb.c, lib/ftm_analyzer.c, lib/ftm_detector.c, lib/ftm_server.c and
-- lib/ftm_timer.c, which wait and call what is modelled; the loading from the database in
-- lib/ftm_catchb.c; the services of lib/ftm_server.c other than those of the keys, which copy the
-- fields of a request into a call of the core and are a parameter.
pub mod Alarms
pub mod Analyzer
pub mod Base
pub mod Base64
pub mod Buffer
pub mod Cctv
pub mod Core
pub mod Detector
pub mod Events
pub mod FtmList
pub mod Hash
pub mod Mem
pub mod Msgq
pub mod Peer
pub mod Queue
pub mod Ret
pub mod Run
pub mod Score
pub mod Server
pub mod Ssid
pub mod Statistics
pub mod Switch
pub mod Switches
pub mod Table
pub mod Time
pub mod Timer
