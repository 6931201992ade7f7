-- ===== src/Lib.antt =====
-- TinyKV, a key-value store with a log-structured storage engine: the engine, its files and its
-- protocol.
--
-- A client (src/cli_main.cpp) reads lines from a terminal, sends them as requests and prints the
-- responses. A server (src/server_main.cpp) gives each client a connection and a session.
-- The session reads a line, decodes a request, executes it on the database and writes the encoded response. The
-- database puts and deletes in a memtable, which appends to a write-ahead log first and, when it is
-- full, is flushed through the storage manager to a new table of level 0. A get asks the memtable,
-- then the levels, and a level asks its tables, newest first.
--
-- Which file models what:
--   Types: Entry, its comparisons and Error (src/types/entry.h, error.h). `find` is the
--     specification of every lookup.
--   SkipList: SkipListImpl (src/core/skip_list/skip_list_impl.cpp), a map as a list in key order;
--     SkipList/Iter is its iterator, SkipList/Laws the laws of the map.
--   Wal: WAL (src/core/wal/wal.cpp) over the bytes of its file, with records laid out as the host
--     (little-endian) does; Wal/RoundTrip is about replays, Wal/Torn about appends that fail.
--   Disk: the file system as the table files use it: files by path, whether one can be created, and
--     how many bytes it can hold. How it answers is data of the model.
--   SsTable: SSTable (src/core/sstable_manager/sstable.cpp); SsTable/Iter its iterator
--     (sstable_iterator.cpp), SsTable/Writer and SsTable/Reader the file's format (sstable_writer.cpp,
--     sstable_reader.cpp), SsTable/Search, SsTable/Range and SsTable/RoundTrip the theorems
--     on them.
--   Iterator: tinykv::Iterator (src/core/iterators/iterator.h), one constructor for each class that
--     implements it; Iterator/Collect is the loop that copies one.
--   Table: TableFormat and TableReader (src/core/sstable_manager/table_format.h, table_reader.h) as a
--     record of operations, and TableLaws, what the engine relies on; Table/Verdict is what an answer
--     says of a key: nothing, deleted, or a value, and Table/Files what the engine relies on where it
--     opens files that it finds.
--   InMemory: InMemoryTableFormat and its reader; InMemory/Laws shows that it keeps TableLaws,
--     InMemory/Files that it opens the files it writes.
--   BlockBased: BlockBasedTableFormat and BlockBasedTableReader
--     (src/core/sstable_manager/block_based). Structs, Filter, Writer and Reader are the code; Encode
--     and Open are about single blocks, Blocks, Build and Loop about the loop over the entries, Tail
--     and Reopen about the rest of the file, Lookup, LowerBound and Holds about a get, Written and
--     WriteTable about a write, Filter/Bits about the filter's bits, Laws shows that the format keeps
--     TableLaws too, and Files and Restart that it opens the files it writes.
--   BloomFilter: BloomFilterImpl (src/core/bloom_filter/bloom_filter_impl.cpp), over any hash.
--   Context: SystemContext (src/contexts/system_context.h), and what a call finds in its surroundings:
--     clocks, directory listings, faults of the log's file.
--   Level: LevelManagerImpl (src/core/level_manager/level_manager_impl.cpp); Level/Lookup, Level/Write.
--   Storage: StorageManagerImpl (src/core/storage_manager/storage_manager_impl.cpp); Storage/Lookup
--     is about any levels, Storage/Write about directories that held no table, Storage/Discover and
--     Storage/Restart about one that holds levels and tables, and Storage/Compact about `compact`.
--   MemTable: MemTableImpl (src/core/mem_table/mem_table_impl.cpp), whose record Engine is the state of
--     the whole engine; MemTable/Flush, MemTable/Writes, MemTable/Replay and
--     MemTable/Recover for replayWal, on a log that fits the memtable and on any, and MemTable/Logged
--     for what stands in the log.
--   Db: DbImpl (src/core/db_impl.cpp) and DbFactory (src/factories/db_factory.cpp); Db/Reads is about
--     what a get answers afterwards, Db/Session about sequences of calls, Db/Durability about a
--     restart on their log, and Db/Compact about a forced compaction.
--   Message, Codec: src/api/message.h and src/api/codec.cpp; Codec/Requests, Codec/Responses.
--   Connection: FdConnection (src/net/fd_connection.cpp), over what recv and send answer in turn;
--     Connection/Fd is the object, with its buffer and whether its descriptor is open.
--   Server: CommandHandler (src/api/command_handler.cpp) and Session (src/net/session.cpp);
--     the session's loop over lines there, and in Server/Serve on a connection. Server/Laws is about
--     a whole session.
--   Client: runRepl (src/cli/repl.cpp), and readPortFromEnv (src/server_main.cpp, src/cli_main.cpp);
--     Client/Transcript is what a terminal is to show, Client/Laws that it does, Client/Port about the
--     port, and Client/Dialogue about a client and a session that talk.
--   Common: shared helpers. Tests: concrete inputs.
--
-- Conventions. A byte is a number; a key or value is a list of bytes, compared as std::string does.
-- A call that may throw returns an Outcome: a result, a thrown exception, or `fault` for what the
-- language leaves undefined (an index out of range, an `int` that overflows). A call that changes
-- state takes the state and returns it, also when it throws. Fixed-width fields are taken modulo
-- their width, and so is a size that the code puts into an `int` (`int_end`, `get_length`).
--
-- Loops on fuel: `read_entries` of the log has one round for each byte and one more, since a round
-- that goes on consumes a byte at least; the bisections of a table have one round for each entry and
-- one more, since each halves the range; the loops over an iterator have one round for each entry and
-- one more; the session on a connection has one round for each byte that arrives and one more, since
-- a line takes a newline at least. When the fuel ends the result is `out_of_fuel` or `fault`.
--
-- A stream that writes a block-based table fails if the file has no room, or would reach 2 ^ 63 bytes,
-- and the model reports it when the file is closed. Memory is never exhausted.
--
-- Not modelled: mutexes and threads, as every call runs to its end, so also the main functions, which
-- start the sessions in threads; two databases in one process, which share the static counter of the
-- table files' names; sockets but for what recv and send answer; logging; code behind `#if 0` or in
-- comments; src's siblings archive, bench and tests. No directory's listing changes while it is read.
pub mod Common
pub mod Types
pub mod SkipList
pub mod Wal
pub mod Disk
pub mod SsTable
pub mod Iterator
pub mod Table
pub mod InMemory
pub mod BlockBased
pub mod BloomFilter
pub mod Context
pub mod Level
pub mod Storage
pub mod MemTable
pub mod Message
pub mod Db
pub mod Codec
pub mod Connection
pub mod Server
pub mod Client
mod Tests
