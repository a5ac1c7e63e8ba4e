-- ===== src/Sidecar/Profile.antt =====
-- The `cuvs_hw_profile` file: `CuvsHwProfile`, `cuvs_hw_profile_write` and `cuvs_hw_profile_read` of
-- src/cuvs_util.c. A double is its bits,
-- and the name the number that its 64 bytes make up.
pub mod RoundTrip
use pg_cuvs.Base.{ℕ, ◌-◌, List, ◌++◌, Bool, Option, none, some, take, drop, ◌==◌, if◌then◌else◌}
use pg_cuvs.Base.Bytes.{le, of_le}
use pg_cuvs.Crc.{crc32}
use pg_cuvs.Sidecar.File.{OutFile, fwrite, fread, guard, ◌>>=◌, ◌>>◌}

abbrev pub profile_magic : ℕ
profile_magic = 0x46505748

abbrev pub profile_version : ℕ
profile_version = 2

-- `CUVS_HWPROFILE_SZ_V1` and `CUVS_HWPROFILE_SZ_V2`
abbrev pub size_v1 : ℕ
size_v1 = 136

abbrev pub size_v2 : ℕ
size_v2 = 152

-- 200.0 and 1000.0
abbrev pub default_cpu_dist : ℕ
default_cpu_dist = 0x4069000000000000

abbrev pub default_cagra_lat : ℕ
default_cagra_lat = 0x408F400000000000

-- `CuvsHwProfile`
pub record HwProfile : Type 0 where
  pub magic : ℕ
  pub version : ℕ
  pub body_crc32 : ℕ
  pub probe_status : ℕ
  pub gpu_name : ℕ
  pub n_gpus : ℕ
  pub reserved : ℕ
  pub total_vram_bytes : ℕ
  pub measured_at : ℕ
  pub link_bw_bpus : ℕ
  pub hbm_bw_bpus : ℕ
  pub gpu_bf_tput : ℕ
  pub ipc_rtt_us : ℕ
  pub cpu_dist_tput : ℕ
  pub gpu_cagra_lat_us : ℕ

-- The bytes behind `body_crc32`, which version 1 has up to the last two doubles.
unfoldable pub body_v1 : HwProfile → List ℕ
body_v1 p =
    le 4 p.probe_status
    ++ (le 64 p.gpu_name
        ++ (le 4 p.n_gpus
            ++ (le 4 p.reserved
                ++ (le 8 p.total_vram_bytes
                    ++ (le 8 p.measured_at
                        ++ (le 8 p.link_bw_bpus
                            ++ (le 8 p.hbm_bw_bpus
                                ++ (le 8 p.gpu_bf_tput ++ le 8 p.ipc_rtt_us))))))))

unfoldable pub body_v2 : HwProfile → List ℕ
body_v2 p = body_v1 p ++ (le 8 p.cpu_dist_tput ++ le 8 p.gpu_cagra_lat_us)

unfoldable pub prefix_bytes : ℕ → ℕ → ℕ → List ℕ
prefix_bytes magic version crc = le 4 magic ++ (le 4 version ++ le 4 crc)

-- What the writer puts into the header fields.
unfoldable pub stamp : HwProfile → HwProfile
stamp p =
    let p' = record p { magic = profile_magic; version = profile_version; reserved = 0 } in
    record p' { body_crc32 = crc32 (body_v2 p') }

-- `cuvs_hw_profile_write`: the answer, the file and `*p` after it; `true` is `return 0`.
unfoldable pub hw_profile_write : OutFile → HwProfile → (Bool × OutFile) × HwProfile
hw_profile_write f p =
    let p' = stamp p in
    (fwrite (prefix_bytes p'.magic p'.version p'.body_crc32 ++ body_v2 p') f, p')

-- The size of a version that is known.
unfoldable pub size_of : ℕ → Option ℕ
size_of version = if version == 1 then some size_v1 else if version == 2 then some size_v2 else none

-- The struct with a body of its version, over the defaults.
unfoldable pub profile_of : ℕ → ℕ → ℕ → List ℕ → HwProfile
profile_of magic version crc body = record {
  magic = magic;
  version = version;
  body_crc32 = crc;
  probe_status = of_le (take 4 body);
  gpu_name = of_le (take 64 (drop 4 body));
  n_gpus = of_le (take 4 (drop 68 body));
  reserved = of_le (take 4 (drop 72 body));
  total_vram_bytes = of_le (take 8 (drop 76 body));
  measured_at = of_le (take 8 (drop 84 body));
  link_bw_bpus = of_le (take 8 (drop 92 body));
  hbm_bw_bpus = of_le (take 8 (drop 100 body));
  gpu_bf_tput = of_le (take 8 (drop 108 body));
  ipc_rtt_us = of_le (take 8 (drop 116 body));
  cpu_dist_tput = if version == 1 then default_cpu_dist else of_le (take 8 (drop 124 body));
  gpu_cagra_lat_us = if version == 1 then default_cagra_lat else of_le (take 8 (drop 132 body));
}

-- `cuvs_hw_profile_read`
unfoldable pub hw_profile_read : List ℕ → Option HwProfile
hw_profile_read f = do
  (hdr, f₁) ← fread 12 f
  let magic = of_le (take 4 hdr)
  let version = of_le (take 4 (drop 4 hdr))
  let crc = of_le (take 4 (drop 8 hdr))
  guard (magic == profile_magic)
  total_sz ← size_of version
  (body, f₂) ← fread (total_sz - 12) f₁
  let p = profile_of magic version crc body
  guard (p.reserved == 0)
  guard (crc32 body == crc)
  some p
