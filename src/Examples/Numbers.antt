-- ===== src/Examples/Numbers.antt =====
-- TIDs, checksums and latencies at concrete inputs.
use pg_cuvs.Base.{
  ℕ, ◌*◌, ◌/◌, ◌^◌, ◌<◌, ◌≤◌, ◌≡◌, ◌≢◌, refl, ◌↔◌, List, [], ◌∷◌, arith, length, ltb, leb,
}
use pg_cuvs.Tid.{encode, decode}
use pg_cuvs.Tid.RoundTrip.{encode-decode}
use pg_cuvs.Crc.{crc32, crc32_table, byte_step, stream_begin, stream_update, stream_end}
use pg_cuvs.Latency.{bucket_index, percentile, histogram, at_least_one}
use pg_cuvs.Latency.Buckets.{bucket_index_ends}
use pg_cuvs.Latency.Histogram.{count_if}
use pg_cuvs.Latency.Percentile.{percentile_bounds}

encode-decode_example : encode (decode 196615).0 (decode 196615).1 ≡ 196615
encode-decode_example = encode-decode 196615 (omega arith)

abbrev block : ℕ
block = 3

-- "123456789"
abbrev digits_text : List ℕ
digits_text = 49 ∷ 50 ∷ 51 ∷ 52 ∷ 53 ∷ 54 ∷ 55 ∷ 56 ∷ 57 ∷ []

check_value : crc32 digits_text ≡ 0xCBF43926
unfolding crc32 stream_end stream_begin stream_update byte_step crc32_table
check_value = refl

abbrev two_chunks : List (List ℕ)
two_chunks = (1 ∷ 2 ∷ []) ∷ (3 ∷ []) ∷ []

abbrev two : ℕ
two = 2

two_not_five : two ≢ 5
two_not_five e = omega arith

abbrev long : ℕ
long = 2000000000

bucket_index_ends_example :
    ((bucket_index long ≡ 0) ↔ (long ≡ 0)) × ((bucket_index long ≡ 31) ↔ (2 ^ 30 ≤ long))
bucket_index_ends_example = bucket_index_ends long

-- The 95th percentile of the code, as a truncated product.
abbrev ninety_five : ℕ → ℕ
ninety_five n = n * 95 / 100

abbrev latencies : List ℕ
latencies = 900 ∷ 120 ∷ 3 ∷ []

percentile_bounds_example :
    (at_least_one (ninety_five (length latencies))
      ≤ count_if (λ us. leb us (percentile ninety_five (histogram latencies))) latencies)
    × (count_if (λ us. ltb us (percentile ninety_five (histogram latencies) / 2)) latencies
        < at_least_one (ninety_five (length latencies)))
percentile_bounds_example =
    percentile_bounds ninety_five latencies (omega arith) (omega arith) (omega arith)
      (omega arith, (omega arith, (omega arith, tt)))
