-- ===== src/Crc/Stream.antt =====
-- A checksum taken in chunks is the checksum of the whole.
use mathlib.Core.List.{flatten}
use pg_cuvs.Base.{ℕ, ◌≡◌, refl, ap, sym, ◌∙◌, List, [], ◌∷◌, ◌++◌}
use pg_cuvs.Crc.{byte_step, stream_begin, stream_update, stream_end, crc32}

pub stream_update-append :
    (crc : ℕ) (xs ys : List ℕ)
    → stream_update crc (xs ++ ys) ≡ stream_update (stream_update crc xs) ys
unfolding stream_update
stream_update-append crc [] ys = refl
stream_update-append crc (x ∷ xs) ys = stream_update-append (byte_step crc x) xs ys

-- Feeding chunks to the streaming interface, one after the other.
pub update_all : ℕ → List (List ℕ) → ℕ
update_all crc [] = crc
update_all crc (chunk ∷ chunks) = update_all (stream_update crc chunk) chunks

update_all-flatten :
    (crc : ℕ) (chunks : List (List ℕ)) → update_all crc chunks ≡ stream_update crc (flatten chunks)
unfolding update_all stream_update flatten
update_all-flatten crc [] = refl
update_all-flatten crc (chunk ∷ chunks) =
    update_all-flatten (stream_update crc chunk) chunks
    ∙ sym (stream_update-append crc chunk (flatten chunks))

-- However a file is cut into chunks, the streaming interface gives the checksum of the whole file.
crc32-flatten :
    (chunks : List (List ℕ)) → stream_end (update_all stream_begin chunks) ≡ crc32 (flatten chunks)
unfolding crc32
crc32-flatten chunks = ap stream_end (update_all-flatten stream_begin chunks)
