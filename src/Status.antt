-- ===== src/Status.antt =====
-- src/cuvs_ipc.h and src/cuvs_util.c: the status codes of the daemon's replies and their names.
use Prim.Native.String.{String}
use pg_cuvs.Base.{ℕ, Bool, ◌||◌, ◌==◌, if◌then◌else◌}

-- The CUVS_STATUS_* macros.
abbrev pub status_ok : ℕ
status_ok = 0

abbrev pub status_error : ℕ
status_error = 1

abbrev pub status_oom_fallback : ℕ
status_oom_fallback = 2

abbrev pub status_not_found : ℕ
status_not_found = 3

abbrev pub status_unavailable : ℕ
status_unavailable = 4

abbrev pub status_build_failed : ℕ
status_build_failed = 5

abbrev pub status_persist_failed : ℕ
status_persist_failed = 6

abbrev pub status_dim_mismatch : ℕ
status_dim_mismatch = 7

abbrev pub status_metric_mismatch : ℕ
status_metric_mismatch = 8

abbrev pub status_stale : ℕ
status_stale = 9

abbrev pub status_no_vectors : ℕ
status_no_vectors = 10

abbrev pub status_canceled : ℕ
status_canceled = 11

abbrev pub status_proto_mismatch : ℕ
status_proto_mismatch = 12

-- `cuvs_status_str(int status)`
pub status_str : ℕ → String
status_str s =
    if s == status_ok
    then "ok"
    else if s == status_error
    then "error"
    else if s == status_oom_fallback
    then "oom_fallback"
    else if s == status_not_found
    then "not_found"
    else if s == status_unavailable
    then "unavailable"
    else if s == status_build_failed
    then "build_failed"
    else if s == status_persist_failed
    then "persist_failed"
    else if s == status_dim_mismatch
    then "dim_mismatch"
    else if s == status_metric_mismatch
    then "metric_mismatch"
    else if s == status_stale
    then "stale"
    else if s == status_proto_mismatch
    then "proto_mismatch"
    else "unknown"

-- The statuses that say nothing against the GPU path, in `cuvs_circuit_record_status`.
pub is_benign : ℕ → Bool
is_benign s =
    s == status_ok
    || s == status_canceled
    || s == status_dim_mismatch
    || s == status_metric_mismatch
    || s == status_stale
    || s == status_no_vectors
