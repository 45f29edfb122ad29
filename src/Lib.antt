-- ===== src/Lib.antt =====
-- SVisual: a system that records and shows signals. A client library gathers the values of a
-- program's signals and sends them in packets; the server cuts the packets out of what arrives,
-- queues their records, keeps the last packet and two hours of each signal, archives them, and
-- tells its callbacks which modules come and go; the monitor watches triggers on the signals.
--
-- The parts, their files, and the sources they model:
--
-- - Base: the shared types (SVBase/base.h, SVBase/sv_limits.h, SVBase/src/base.cpp).
-- - Misc/Front, Misc/Timer: edge detector and delay timers (SVMisc/front.h, SVMisc/timer_delay.h).
-- - Misc/SpinLock: the reader-writer lock (SVMisc/spin_lock.h) as steps of any number of threads.
-- - Client: the client's state and calls (SVClient/src/client.cpp): `sv_connect`, `sv_set_param`,
--   `add_value`, `prepare_data`, and `turn` for a turn of `sendCycle`. Valid is about its arrays,
--   Hold about what a cycle leaves in them, Param about the parameters, Wire about the way of a
--   message to the server.
-- - Server/Scan: the loop of `receiveData` that cuts messages (SVServer/src/server.cpp); Frames,
--   Stream and Bounds are about it. Server/Receive: `startServer`, `stopServer`, `receiveData`.
-- - Server/Buffer: the ring of records (SVServer/src/buffer_data.h, buffer_data.cpp), with `reserve`,
--   `fill` and `publish` for the three stages of `updateDataSignals`. Queue is about it as a queue.
-- - Server/Registry: `addSignal`, `addModule`, `signalBufferEna` (SVServer/src/server.cpp).
-- - Server/Archive: the two halves of the archive and their saving (SVServer/src/archive.cpp). The
--   saving thread is a step that happens when the next `copyToDisk` waits for it (`join`).
-- - Server/Update: the update thread (SVServer/src/thread_update.cpp): `updateSignals` record by
--   record; Ring is the two-hour buffer of a signal, Links the check of the connections,
--   Restart what follows a restart.
-- - Trigger: `checkCondition` and the pass of `workCycle` over the triggers
--   (SVTriggerDialog/src/trigger_dialog_impl.cpp).
-- - Arduino: the client for boards (SVArduino/sv_client.cpp); Tree is its map of values
--   (SVArduino/sv_binTree.h).
-- - Viewer/FileLoader: the viewer's reading of archive files
--   (SVViewer/src/file_loader/file_loader.cpp). Index is `loadFile` on what the window keeps, Signal
--   is `loadSignalData`. Blocks, Places, Gather, Counts and RoundTrip follow one file from the bytes
--   that Server/Archive/File writes to the records that are read; Whole puts them together.
-- - Misc/Logger: the logger (SVMisc/logger.h), with what other threads do between two turns of its
--   own thread; Laws is about its ring as a queue.
-- - Misc/TcpClient: the blocking TCP client (SVMisc/src/tcp_client.cpp). Misc/TcpServer: the TCP server
--   (SVMisc/src/tcp_server.cpp); Stream joins both with `receiveData`.
-- - Export: the loops of the export (SVExportDialog/src/export_dialog_impl.cpp). Ring is about the
--   records that they go over.
-- - Graph: what the graph shows of a signal (SVGraphPanel/src/graph_widget.cpp). Window is the search
--   in its ring and the range of values, Points the line. Window/Shown joins it with the viewer.
-- - Server/Database: the writer to the database (SVServer/src/clickhouse_db.cpp), Signals the table of
--   its signals. Viewer/Database: the reading from it (SVViewer/src/db_loader/clickhouse_loader.cpp).
-- - Web: the answers of the web server (SVWebServer/src/web_server_impl.cpp), with the parser of
--   requests (http_parser) and Qt's JSON as arguments.
-- - Stat: the statistics of a signal (SVStatDialog/src/stat_dialog_impl.cpp): the records of the time
--   window and the histogram of their values.
-- - Script: what scripts read and write (SVScriptDialog/src/script_dialog_impl.cpp). Packet compares
--   it with the update thread of the server. Cycle is the cycle of the viewer, Laws are its turns, Room
--   the places that they set.
-- - Prelude: byte strings, ordered maps, lists and rings that all parts share. Tests: each theorem
--   at a concrete input.
--
-- How the code is read. Paths are from src/ of the repository. A byte is a number; strings are lists
-- of bytes, and a C string ends at the first 0. Widths are written out (`% 2 ^ 64` for `uint64_t`).
-- A null pointer that is used, or an access outside of an array, is `none`, so that a result `some`
-- shows that there is none. `std::map` is a list in the order of its keys. `float` and `double` are
-- a parameter with the operations that the code uses. The clock, whether a connection stands, whether
-- a file opens, and what memory holds that the code does not clear are arguments.
--
-- Fuel. `scan_loop` has two turns more than there are bytes, which is enough for every input;
-- `read_loop` has one more than the ring has places, which is enough for every valid ring.
--
-- `read_blocks` and `read_on` have one turn more than the file has bytes, `heads` than a block has, and
-- the loops of Graph than the ring has places; the writing thread drains with one more than 100.
--
-- zlib is an argument (Zlib in Viewer/FileLoader/Whole), with what its documentation says of it. The
-- writing of the archive is followed twice: Server/Archive keeps records, Archive/File bytes.
--
-- Not modelled: threads' timing and sleeping, the names of archive files, the client of the database,
-- Lua (an argument of Script/Cycle), and of the graphical programs all but what is named above. The
-- ring of records is modelled with one writer at a time.
pub mod Prelude
pub mod Base
pub mod Misc
pub mod Server
pub mod Client
pub mod Arduino
pub mod Export
pub mod Graph
pub mod Script
pub mod Stat
pub mod Trigger
pub mod Viewer
pub mod Web
pub mod Tests
