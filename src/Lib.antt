-- ===== src/Lib.antt =====
-- The cardiag firmware: a logger on an ESP32-S3 that records a vehicle's CAN bus, keeps the
-- recordings on a LittleFS partition, and hands them to a hub over Wi-Fi.
--
-- How the parts interact. canTask receives frames, and the recorder
-- (firmware/src/recorder.cpp) keeps the last frames and the changes until they are downloaded
-- or stored. The main loop restarts a stuck CAN controller (firmware/include/canrecov.h). The
-- filestore writes recordings as files with an ever growing index, keeps the table of those
-- files in RAM (firmware/src/fsindex.cpp, firmware/include/fsindex.h), deletes old ones by the
-- retention rules, and keeps an account of the bytes in use (firmware/include/fsusage.h). The
-- power loop turns the time since the last frame (firmware/include/busidle.h) or the ignition
-- input (firmware/include/powerpolicy.h) into one clock, and the sleep guard
-- (firmware/include/sleepguard.h) compares it with its thresholds before it closes files and
-- cuts the supply. The Wi-Fi side looks for the hub's network (firmware/include/scansched.h)
-- and for the hub's address (firmware/include/hubaddr.h). The poller sends the requests of the
-- poll plan one at a time and reads a trip's bookends, in the mode that the main loop chooses
-- by the ignition and by hand; the plan is posted by the hub, whose credentials are checked
-- before they are stored. Every record carries the id of its session
-- (firmware/src/session.cpp) and a time in it.
--
-- Which file models which part:
--   Base             shared tests, list lemmas, and 32-bit words (Base/Word.antt).
--   FsIndex/Table    the file table: fsEntryLess, fsTableFind, fsTableAdd, fsTableAddOrEvict,
--                    fsTableSort and what they call; its children hold the proofs on adding, on
--                    what an eviction drops, and on the sort.
--   FsIndex/Scan     names, kinds and the boot scan: fsParseName, fsScanFeed;
--                    FsIndex/Scan/Run.antt folds it over a directory.
--   FsIndex/Retention  fsPickVictim, fsPickTierAVictim, evictAt, fsEnforceRetention; its
--                    children hold the proofs on the choice of a victim, on one eviction, on
--                    what a call keeps, and on the loops and limits.
--   CanRecov         canRecovInit, canRecovAct, canRecovStep; Traces runs them over samples.
--   BusIdle          busQuietMs, busIdleFor.
--   SleepGuard       sleepVerdict and sleepExecute, over the caller's functions.
--   PowerPolicy      ignDebounce, powerQuietMs, powerThresholds and the gates; Ignition feeds it
--                    runs of samples, Guard joins it to the sleep guard.
--   ScanSched        the scan schedule.
--   HubAddr          hubAddrSelect, and the schedule of the queries for the address.
--   HubQuery         the life of the one mDNS query (firmware/include/hubquery.h); Balance counts
--                    what is started, destroyed and freed.
--   Rtc              the registers of the real time clock (firmware/include/rtc8563.h).
--   FsUsage          fsDataBlocks and fsUsageResize.
--   BootGuard        firmware/include/bootguard.h with the reads and writes of
--                    firmware/src/bootguard.cpp; Count runs it over boots.
--   HubProto         hubHeaderInit, hubCanRecord, hubObdRecord (firmware/include/hubproto.h);
--                    Chunk is hubChunkRows (firmware/src/hubchunk.cpp).
--   IsoTp            the reception of segmented messages (firmware/src/bookend.cpp); Roundtrip
--                    joins it to a sender of ISO 15765-2.
--   Bookend          the record of a trip's start or end: Encode writes it, Parse reads the
--                    replies, and Seq is the sequencer of the reads (firmware/src/bookend.cpp), with
--                    the proofs on it in its Flags, Truth, Runs and Deadline.
--   PollPlan         the poll plan (firmware/src/pollplan.cpp): Json is the scanner, Contract the
--                    parser of a posted body, Codec the bytes kept in NVS, Hash the canonical text
--                    and its hash, Sched the scheduler.
--   Poller           firmware/src/poller.cpp: its state, the stored plan, entering and leaving
--                    MODE_POLL, the replies; Tick is a pass of pollerTick, and Valid, Stored, Trips
--                    and Window hold the proofs.
--   MainLoop         the modes in firmware/src/main.cpp and the ignition in
--                    firmware/src/power.cpp, with the poller, as a pass of loop, with the frames and
--                    plans that other tasks hand to the poller; Events, Gap and Trip hold the proofs.
--   CredStore        the pure half of the credentials (firmware/src/credstore.cpp): Validate, Line,
--                    Pem, Net, Token and Sha256 hold the code, Net/Ipv4, Fit and the end of Line the
--                    proofs on it.
--   SpscRing         the ring of the change log (firmware/include/spscring.h); Queue and Refine join
--                    it to its rows and to a queue.
--   Recorder         firmware/src/recorder.cpp: the raw ring and the change log; Raw holds the proofs on
--                    the ring, and Csv the text of a download with the proofs on its chunks.
--   Session          firmware/src/session.cpp; Clock runs it over resets, anchors and passes.
--   CoreDump         cdElfExtent (firmware/include/cdelf.h).
--   Examples         tests, the test vectors of docs/protocol.md among them, and the theorems at
--                    concrete inputs.
--
-- Representation. A uint32_t is a number below 2 ^ 32, and each operation that can wrap is
-- written with its modulus; an int32_t is its bit pattern, compared after adding 2 ^ 31. A
-- struct that a function changes is a record passed in and returned. Arrays are lists: the
-- table's array and its count are one list, and its capacity a number beside it. A text is the
-- list of its bytes, and a cursor into it the list of what is left. Callbacks and the C
-- library's sscanf are functions given as arguments, and so are the calls of the key-value store
-- in flash. What the poller hands to the controller and to the filestore is a list of outputs.
--
-- Fuel. The loops of the retention run on the number of entries plus one, since each round
-- deletes an entry or moves on past one. The backoff loop of the hub's address runs on its
-- number of rounds, and hubChunkRows on the number of rows, since a datagram takes at least
-- one. The loops of the plan's parser run on the length of the text plus one, since every
-- round reads a byte at least, and the syntax walk on twice the length plus one, since a value
-- may start where its array's inside does. A search for the next MID runs on the 256 there
-- are, and bookendTick on its four rounds. A download asks for as many chunks as there are
-- rows and two more, since each but the first and the last holds a row. The other loops are
-- recursions on the list.
--
-- Not modelled: the tasks and their input and output (filestore.cpp, the drivers and, but for
-- the modes and the ignition, main.cpp and power.cpp), the web server, the sniffer, the decoding of OBD values, the
-- reading of core dumps from flash, the memory orderings of the ring's atomics. Much of it is
-- code on FreeRTOS, LittleFS, Wi-Fi and the TWAI driver. The functions that give text for
-- display are left out.
pub mod Base
pub mod BusIdle
pub mod SleepGuard
pub mod CanRecov
pub mod FsIndex
pub mod PowerPolicy
pub mod HubAddr
pub mod ScanSched
pub mod FsUsage
pub mod HubProto
pub mod BootGuard
pub mod HubQuery
pub mod Rtc
pub mod PollPlan
pub mod SpscRing
pub mod IsoTp
pub mod Bookend
pub mod CoreDump
pub mod CredStore
pub mod Recorder
pub mod Session
pub mod Poller
pub mod MainLoop
mod Examples
