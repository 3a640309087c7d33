-- ===== src/Lib.antt =====
-- An LSM-tree key-value store with its server and client: src/lsm_tree.cpp, src/run.cpp,
-- src/skip_list.cpp, src/bloom_filter.cpp, src/fence_pointers.cpp, src/lsm_adapter.cpp,
-- src/server.cpp, src/client.cpp and src/thread_pool.cpp, with their headers in include/, the
-- programs src/main_server.cpp and src/main_client.cpp, and the generators of test data.
--
-- A put goes to a skip list in memory, the buffer. A full buffer is flushed into a sorted run on disk
-- at level 1; runs have a Bloom filter and fence pointers; compactions merge the runs of a level and
-- move them down. A get asks the buffer, then the runs of each level from the newest back; a range
-- merges the answers of all of them. The server has a thread for each client, cuts what the client sends
-- into commands, and calls the tree through LSMAdapter.
--
-- Files and code:
--   Int64       64-bit values as patterns below 2^64, with the signed order (rank), INT64_MIN as
--               tombstone, and their eight bytes in memory (little-endian).
--   Pair        KeyValuePair, and the bytes of pairs in a run file.
--   Result      How a call ends: a value, or the exception or undefined behaviour that ends it.
--   Double      The floating-point operations, a parameter of the model.
--   Bloom       BloomFilter: create is the constructor with calculate_parameters; insert, might_contain,
--               save and load are the functions of these names, hash is hash with fnv1a_hash.
--   Fence       FencePointers: create and load are the constructors; binary_search, find_offset,
--               find_range_offsets and save are the functions of these names.
--   Store       The files that the runs share, by name, and the I/O counters of the tree.
--   Run         Run: create and load are the constructors, the other names are those of the source.
--   SkipList    SkipList: the nodes are a list in the order of the bottom level, each with its height;
--               next(level) is the first node behind that is taller than the level.
--   Compaction  The loop of perform_compaction that merges sorted pairs, and the std::unique of range.
--   Level       Level, and the strategy of each level.
--   Text        Texts, and the numbers and searches of the standard library that the source uses.
--   Tree        LSMTree: Tree/Compact has flush_buffer and perform_compaction, Tree/Access put, get,
--               range, remove and size, Tree/Upkeep compact, load_file, the destructor, the settings and
--               the counters, Tree/Bulk bulk_load_file, Tree/Startup the constructor and
--               load_state_from_disk, Tree/Stats print_stats.
--   Adapter     LSMAdapter: tokenize and the handlers have the names of the source; handle_stats is in
--               Adapter/Stats, handle_load, shutdown and process_command in Adapter/Load.
--   Server      The loop of handle_client over the bytes of a client; Server/Commands has process_command,
--               the replies and the sending in chunks, Server/Clients the map of client threads with
--               handle_connections and the cleanup, Server/Lifecycle start and stop.
--   Client      Client: send_command, with the loop that collects a response, and disconnect; Client/Main has
--               connect, receive_responses (watch), and display_response and the interactive loop of
--               src/main_client.cpp, Client/Welcome the welcome message, the arguments and the signals.
--   Pool        ThreadPool: the constructor, enqueue, worker_thread and the destructor as steps.
--   Generators  src/data_generator.cpp and src/data_generator_256mb.cpp, whose main is write_pairs, and
--               src/almost_full_buffer_generator.cpp; Generators/TestData is src/generate_test_data.cpp.
--   Tests       Worked examples.
--
-- Fuel and bounds: a binary search has as many rounds as there are entries. perform_compaction has
-- as much fuel as there are levels, since each compaction that another one starts is of a deeper
-- level. Printing a number has more fuel than the number has digits. compact has a round for each
-- level, since no level can be added while the lock is held; at startup it has one more for each
-- run, since every compaction leaves fewer runs and adds at most one level. Cutting a buffer into
-- commands has a round for each character. The generators have a number of rounds for each key that
-- they draw, a parameter, and IsPatient says that it is enough. Sending a response has a round for
-- each byte and a number of further rounds, a parameter, for calls of send that take nothing.
--
-- Parameters: the floating-point operations (record Doubles, with the exact cases of IEEE 754 in
-- IsExact) and their printing, std::sort (its contract is IsSort: equal keys come in any order), the
-- draws of the random generator, the text of an exception
-- (what), the measured times, the order of a directory, what recv delivers and what send returns,
-- what the system calls of start answer, and what each round of the client's loop meets.
--
-- Not modelled: threads that share a tree, and mutexes but for the lock that a thread holds already,
-- on which rebuild_filters waits in vain; console output and log_debug; clients that
-- come or leave while start or stop goes on. A file operation fails only where a file cannot be
-- opened.
pub mod Prelude
pub mod Int64
pub mod Result
pub mod Pair
pub mod Fence
pub mod Double
pub mod Bloom
pub mod Store
pub mod Text
pub mod Run
pub mod SkipList
pub mod Compaction
pub mod Level
pub mod Tree
pub mod Adapter
pub mod Server
pub mod Client
pub mod Pool
pub mod Generators
pub mod Tests
