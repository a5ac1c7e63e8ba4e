-- ===== src/Examples/Exports.antt =====
-- The HNSW export, the cold registry and the drop of an index at concrete inputs.
use pg_cuvs.Base.{
  ℕ, ◌+◌, ◌-◌, ◌*◌, ◌/◌, ◌%◌, ◌^◌, ◌≤◌, ◌≡◌, ◌≢◌, ◌⊎◌, refl, List, [], ◌∷◌, ◌++◌, Bool, true, false,
  none, some, get_elem?, replicate, length, ltb, if◌then◌else◌, arith, false≢true,
}
use pg_cuvs.Hnsw.Half.{float_to_half, half_bits, round_bits, sign_of, exponent_of, mantissa_of}
use pg_cuvs.Hnsw.Half.Nearest.{Nearest, float_to_half-Nearest}
use pg_cuvs.Hnsw.Neighbours.{heuristic_select_neighbors, select_loop, dominated}
use pg_cuvs.Hnsw.Neighbours.Selection.{Decided, Diverse, heuristic_select_neighbors-Decided}
use pg_cuvs.Hnsw.Pages.{
  place, needed, elem_tuple_size, neigh_tuple_size, maxalign, usable_bytes, pack,
  check_hnsw_page_fit, fits_one, elems_per_page, write_elem_pages_packed,
}
use pg_cuvs.Hnsw.Pages.Packed.{write_elem_pages_packed-place, pack_fits}
use pg_cuvs.Warmup.{Job, Queue, same_index, is_queued}
use pg_cuvs.Warmup.Cold.{ColdEntry, is_for, wants_warmup, job_of, cold_miss}
use pg_cuvs.Warmup.Cold.Stuck.{find_cold, after_misses, full_queue-cold_miss}
use pg_cuvs.Cache.{find_index}
use pg_cuvs.Cache.Drop.{Kind, ivfpq, hnsw, Files, Registry, handle_drop}
use pg_cuvs.Cache.Drop.Gone.{handle_drop-gone}

-- 1.0 and -1.5229491687270953, which lies halfway between two halves.
float_to_half_tests : (float_to_half 0x3F800000 ≡ 0x3C00) × (float_to_half 0xBFC2F000 ≡ 0xBE18)
unfolding float_to_half half_bits round_bits sign_of exponent_of mantissa_of
float_to_half_tests = (refl, refl)

abbrev tie : ℕ
tie = 0xBFC2F000

float_to_half-Nearest_example :
    (float_to_half tie / 2 ^ 15 ≡ tie / 2 ^ 31 % 2)
    × Nearest (float_to_half tie % 2 ^ 15) (exponent_of tie) (mantissa_of tie)
unfolding exponent_of
float_to_half-Nearest_example = float_to_half-Nearest tie (omega arith)

-- Candidates that are closer to each other than to the query if they differ by one.
abbrev closer : ℕ → ℕ → Bool
closer c s = ltb c (s + 2)

selects : heuristic_select_neighbors closer (1 ∷ 2 ∷ 5 ∷ 8 ∷ []) 2 ≡ 1 ∷ 5 ∷ []
unfolding heuristic_select_neighbors select_loop dominated
selects = refl

heuristic_select_neighbors-Decided_example :
    let selected = heuristic_select_neighbors closer (1 ∷ 2 ∷ 5 ∷ []) 3 in
    (heuristic_select_neighbors closer [] 3 ≡ [])
    × Decided closer 3 6 selected
        (heuristic_select_neighbors closer ((1 ∷ 2 ∷ 5 ∷ []) ++ (6 ∷ [])) 3)
    × Diverse closer selected
    × (length selected ≤ 3)
heuristic_select_neighbors-Decided_example =
    heuristic_select_neighbors-Decided closer (1 ∷ 2 ∷ 5 ∷ []) 6 3

write_elem_pages_packed-place_example :
    (page : List ℕ) × (get_elem? (write_elem_pages_packed 7 3) ((place 3 5).blkno - 1) ≡ some page)
    × (get_elem? page (((place 3 5).elem_offno - 1) / 2) ≡ some 5)
    × ((place 3 5).neigh_offno ≡ (place 3 5).elem_offno + 1)
    × (length page ≤ 3)
write_elem_pages_packed-place_example =
    write_elem_pages_packed-place 7 3 5 (omega arith) (omega arith)

check_passes : check_hnsw_page_fit 128 4 16 2 ≡ true
unfolding check_hnsw_page_fit fits_one elems_per_page needed elem_tuple_size neigh_tuple_size
    maxalign
check_passes = refl

pack_fits_example :
    (k : ℕ) × (pack false 128 4 16 2 ≡ some k)
    × (1 ≤ k)
    × ((level : ℕ) → level ≤ (if false then 2 else 0) → k * needed 128 4 16 level ≤ usable_bytes)
pack_fits_example = pack_fits false 128 4 16 2 check_passes

-- 64 jobs for index 9.
abbrev other_job : Job
other_job = record {
  db_oid = 1;
  index_oid = 9;
  relfilenode = 9;
  table_oid = 4;
  from_cache_miss = true;
}

abbrev full_queue : Queue
full_queue = record { slots = replicate 64 other_job; head = 0; tail = 0; count = 64 }

abbrev cold_index : ColdEntry
cold_index = record {
  db_oid = 1;
  index_oid = 5;
  relfilenode = 7;
  table_oid = 4;
  warmup_state = 1;
  cache_miss_count = 0;
  valid = true;
}

finds_cold : find_cold 1 5 (cold_index ∷ []) ≡ some cold_index
unfolding find_cold is_for
finds_cold = refl

asks : wants_warmup cold_index ≡ true
unfolding wants_warmup
asks = refl

not_queued : is_queued full_queue.slots 0 64 (job_of cold_index) ≡ false
unfolding is_queued same_index
not_queued = refl

abbrev empty_queue : Queue
empty_queue = record { slots = replicate 64 other_job; head = 0; tail = 0; count = 0 }

-- The index is missed again in between.
full_queue-cold_miss_example :
    let after = cold_miss 1 5 (cold_index ∷ []) full_queue in
    (after.1 ≡ full_queue)
    × (is_queued after.1.slots after.1.head after.1.count (job_of cold_index) ≡ false)
    × (find_cold 1 5 after.0
        ≡ some (record cold_index { cache_miss_count = (0 + 1) % 2 ^ 64; warmup_state = 2 }))
    × ((cold_miss 1 5 (after_misses ((1, 5, empty_queue) ∷ []) after.0) empty_queue).1
        ≡ empty_queue)
full_queue-cold_miss_example =
    full_queue-cold_miss 1 5 (cold_index ∷ []) full_queue cold_index ((1, 5, empty_queue) ∷ [])
      empty_queue (omega arith) finds_cold asks not_queued

-- Only the `.ivfpq` file of index 5 is there.
abbrev some_files : Files
some_files d a b ivfpq = true
some_files d a b k = false

abbrev registry : Registry
registry = record { index_dir = 0; indexes = []; cold = cold_index ∷ []; files = some_files }

handle_drop-gone_example :
    let after = handle_drop (λ k. true) 1 5 registry in
    (find_index after.indexes 1 5 ≡ none)
    × ((k : Kind) → k ≢ ivfpq → k ≢ hnsw → after.files 0 1 5 k ≡ false)
    × (after.files 0 1 5 ivfpq ≡ true)
    × (after.files 0 1 5 hnsw ≡ false)
    × ((d a b : ℕ) (k : Kind)
        → (d ≢ 0) ⊎ (a ≢ 1) ⊎ (b ≢ 5)
        → after.files d a b k ≡ some_files d a b k)
handle_drop-gone_example =
    handle_drop-gone (λ k. true) 1 5 0 registry tt (λ k. refl) (omega arith)
      (λ i. (λ e. absurd (false≢true e), λ h. absurd (omega arith)))
