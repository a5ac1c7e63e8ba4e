-- ===== src/Lib.antt =====
-- pg_cuvs: a model of the parts of the extension and its GPU daemon that need neither PostgreSQL nor
-- CUDA. The program is a PostgreSQL index access method (src/pg_cuvs.c) whose backends talk to a
-- daemon (src/pg_cuvs_server.c) that keeps indexes in GPU memory; both share src/cuvs_util.c.
--
-- Parts, and the files that model them:
--   Tid        cuvs_tid_encode and cuvs_tid_decode of src/cuvs_util.h.
--   Status     the status codes of src/cuvs_ipc.h, cuvs_status_str.
--   Breaker    the circuit breakers of a backend, cuvs_circuit_* of src/cuvs_util.c: a list of at most
--              64 for the two globals, one function for each operation, and runs of calls (Call).
--   Search     cuvs_u64_contains, and cuvs_tid_in_filter of src/pg_cuvs.c.
--   Batch      cuvs_batch_group, which lets concurrent searches share a dispatch of the daemon;
--              Batch.Worker is the thread that runs the groups, batch_worker_thread, with the
--              producers of handle_search, as a step relation.
--   Latency    the histogram of an index, cuvs_lat_*, and the count of record_search_stat.
--   Crc        the CRC-32 that all sidecar files carry.
--   Sidecar    the files beside an index: File is a FILE * with a limited room, Tids the `.tids`
--              file, Vectors the `.vectors` file, Shards the `.shards` manifest,
--              Tombstones the `.tombstone` file and cuvs_apply_tombstones of src/pg_cuvs.c, Profile
--              the cuvs_hw_profile file.
--   Append     cuvs_pwrite_all and the appends under the file lock, cuvs_delta_append and
--              cuvs_tombstone_append of src/pg_cuvs.c, with Hooks for their callers cuvs_aminsert and
--              cuvs_ambulkdelete.
--   Plan       how a corpus is split over GPUs: cuvs_auto_shard_count, estimate_vram_bytes, and the
--              clamp and record loop of build_sharded, which hands its records to Sidecar.Shards.
--   Cache      the registry of the daemon: total_vram_used, find_lru_index, evict_lru, ensure_vram;
--              Pick is pick_gpu_for_index, Drop has handle_drop and handle_mark_stale with the files
--              that they change.
--   Warmup     the ring of warm-up jobs, warmup_enqueue and warmup_dequeue; Cold is what a search
--              that misses does with the cold registry.
--   TopK       topk_insert, the running top-k of a search in pieces.
--   Delta      pending inserts: the delta helpers, cuvs_merge_delta and (Filtered)
--              cuvs_merge_delta_filtered of src/pg_cuvs.c, and cagra_finish_one of
--              src/pg_cuvs_server.c.
--   Hnsw       src/hnsw_export.c: Half is float_to_half, Neighbours heuristic_select_neighbors, Pages
--              the packing of elements on pages.
--   Ipc        send_all, recv_all and recv_all_interruptible of src/cuvs_ipc.c, and what the two ends of
--              a socket agree on.
--   Examples   tests, and the results below at concrete inputs.
--   Base       what the parts share: lists as arrays, bits, little-endian words, Boolean tests.
--
-- Conventions. A C integer is a native number with its wrap-around written out; a signed argument is
-- a ℤ where the code tests its sign. Pointers to arrays are lists, globals are explicit state, and
-- `return -1` is `none` or `false`. The code behind a mutex or a file lock is one step. A request
-- of a batch is numbered in the order of arrival, in place of its pointer. The files that appends
-- change are lists of bytes. The count of consecutive errors is taken not to overflow its int, and a
-- backend to look for the `.stale` marker in the directory of the daemon, but in Cache.Drop.
--
-- Fuel. The search loop has n + 1 rounds, and each shortens its range; an eviction loop has one round
-- for each index, and a round that goes on takes one out. The loop over packed pages has a round for
-- each element, and each takes one at least. All other loops follow a list or a count; a loop over
-- system calls follows the list of their outcomes, and fails behind its end.
--
-- Parameters. The outcomes of system calls, the answers of the daemon to a backend, the dispatch of
-- a group of requests, malloc and the free bytes of a GPU are arguments; so are save_index, what
-- places and builds a shard, the scaling of a count by a quantile, qsort, the distance of two vectors,
-- and float comparison (Floats, no NaN); so are PostgreSQL's answers on whether a transaction has
-- committed or is in progress.
--
-- Not modelled: PostgreSQL pages and scans, connections and shared memory, CUDA, object storage; of the
-- threads only the micro-batch worker; the levels and slots of the HNSW export. A struct is modelled
-- by its bytes on x86-64, little-endian and with the compiler's padding.
pub mod Base
pub mod Tid
pub mod Status
pub mod Breaker
pub mod Search
pub mod Batch
pub mod Latency
pub mod Crc
pub mod Sidecar
pub mod Plan
pub mod Cache
pub mod Warmup
pub mod TopK
pub mod Examples
pub mod Delta
pub mod Append
pub mod Hnsw
pub mod Ipc
