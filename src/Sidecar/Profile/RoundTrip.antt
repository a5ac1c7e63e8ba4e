-- ===== src/Sidecar/Profile/RoundTrip.antt =====
-- A profile reads back as it was written, and a file of version 1 reads with the defaults.
use pg_cuvs.Base.{
  ℕ, ◌-◌, ◌^◌, ◌≤◌, ◌<◌, ◌≡◌, refl, ap, ap₂, sym, ◌∙◌, List, ◌++◌, true, some, length, take, drop,
  arith, append_assoc, length-append, ==_refl,
}
use pg_cuvs.Base.Bytes.{le, of_le, of_le-le}
use pg_cuvs.Crc.{crc32}
use pg_cuvs.Crc.Bounds.{crc32-lt}
use pg_cuvs.Sidecar.File.{OutFile}
use pg_cuvs.Sidecar.File.Laws.{fread-append, fwrite_fits}
use pg_cuvs.Sidecar.Profile.{
  HwProfile, profile_magic, profile_version, default_cpu_dist, default_cagra_lat, body_v1, body_v2,
  prefix_bytes, stamp, hw_profile_write, size_of, profile_of, hw_profile_read,
}

-- The fields of the body have their C widths.
pub record BodyFits (p : HwProfile) : Type 0 where
  pub probe_status : p.probe_status < 2 ^ 32
  pub gpu_name : p.gpu_name < 2 ^ 512
  pub n_gpus : p.n_gpus < 2 ^ 32
  pub total_vram_bytes : p.total_vram_bytes < 2 ^ 64
  pub measured_at : p.measured_at < 2 ^ 64
  pub link_bw_bpus : p.link_bw_bpus < 2 ^ 64
  pub hbm_bw_bpus : p.hbm_bw_bpus < 2 ^ 64
  pub gpu_bf_tput : p.gpu_bf_tput < 2 ^ 64
  pub ipc_rtt_us : p.ipc_rtt_us < 2 ^ 64
  pub cpu_dist_tput : p.cpu_dist_tput < 2 ^ 64
  pub gpu_cagra_lat_us : p.gpu_cagra_lat_us < 2 ^ 64

length-prefix_bytes : (a b c : ℕ) → length (prefix_bytes a b c) ≡ 12
unfolding prefix_bytes le
length-prefix_bytes a b c = refl

length-body_v1 : (p : HwProfile) → length (body_v1 p) ≡ 124
unfolding body_v1 le
length-body_v1 p = refl

length-body_v2 : (p : HwProfile) → length (body_v2 p) ≡ 140
unfolding body_v2 body_v1 le
length-body_v2 p = refl

profile_of-body_v2 :
    (p : HwProfile)
    → BodyFits p
    → p.version ≡ 2
    → p.reserved ≡ 0
    → profile_of p.magic 2 p.body_crc32 (body_v2 p) ≡ p
unfolding profile_of body_v2 body_v1 le
profile_of-body_v2 p v e e' = λ i. record {
  magic = p.magic;
  version = sym e i;
  body_crc32 = p.body_crc32;
  probe_status = of_le-le 4 p.probe_status v.probe_status i;
  gpu_name = of_le-le 64 p.gpu_name v.gpu_name i;
  n_gpus = of_le-le 4 p.n_gpus v.n_gpus i;
  reserved = of_le-le 4 p.reserved (omega (arith, e')) i;
  total_vram_bytes = of_le-le 8 p.total_vram_bytes v.total_vram_bytes i;
  measured_at = of_le-le 8 p.measured_at v.measured_at i;
  link_bw_bpus = of_le-le 8 p.link_bw_bpus v.link_bw_bpus i;
  hbm_bw_bpus = of_le-le 8 p.hbm_bw_bpus v.hbm_bw_bpus i;
  gpu_bf_tput = of_le-le 8 p.gpu_bf_tput v.gpu_bf_tput i;
  ipc_rtt_us = of_le-le 8 p.ipc_rtt_us v.ipc_rtt_us i;
  cpu_dist_tput = of_le-le 8 p.cpu_dist_tput v.cpu_dist_tput i;
  gpu_cagra_lat_us = of_le-le 8 p.gpu_cagra_lat_us v.gpu_cagra_lat_us i;
}

-- The three numbers in front of the body.
prefix_fields :
    (a b c : ℕ)
    → a < 2 ^ 32
    → b < 2 ^ 32
    → c < 2 ^ 32
    → let raw = prefix_bytes a b c in
      (of_le (take 4 raw) ≡ a)
      × (of_le (take 4 (drop 4 raw)) ≡ b)
      × (of_le (take 4 (drop 8 raw)) ≡ c)
unfolding prefix_bytes le
prefix_fields a b c ha hb hc = (of_le-le 4 a ha, of_le-le 4 b hb, of_le-le 4 c hc)

-- A file of a known version whose body has its checksum is accepted.
read_known :
    (version total_sz : ℕ) (body rest : List ℕ)
    → version < 2 ^ 32
    → size_of version ≡ some total_sz
    → length body ≡ total_sz - 12
    → (profile_of profile_magic version (crc32 body) body).reserved ≡ 0
    → hw_profile_read (prefix_bytes profile_magic version (crc32 body) ++ (body ++ rest))
      ≡ some (profile_of profile_magic version (crc32 body) body)
unfolding hw_profile_read
read_known version total_sz body rest small known len reserved =
    let crc = crc32 body in
    let raw = prefix_bytes profile_magic version crc in
    let (e, e', e'') =
      prefix_fields profile_magic version crc (omega arith) small (crc32-lt body) in
    rw
      (
        fread-append 12 raw (body ++ rest) (length-prefix_bytes profile_magic version crc),
        e,
        e',
        e'',
        known,
        fread-append (total_sz - 12) body rest len,
        reserved,
        ==_refl crc,
      )
      refl

size_one : size_of 1 ≡ some 136
unfolding size_of
size_one = refl

size_two : size_of 2 ≡ some 152
unfolding size_of
size_two = refl

stamp-fields :
    (p : HwProfile)
    → ((stamp p).magic ≡ profile_magic)
      × ((stamp p).version ≡ 2)
      × ((stamp p).reserved ≡ 0)
      × ((stamp p).body_crc32 ≡ crc32 (body_v2 (stamp p)))
unfolding stamp body_v2 body_v1
stamp-fields p = (refl, refl, refl, refl)

stamp-BodyFits : (p : HwProfile) → BodyFits p → BodyFits (stamp p)
unfolding stamp
stamp-BodyFits p v = record {
  probe_status = v.probe_status;
  gpu_name = v.gpu_name;
  n_gpus = v.n_gpus;
  total_vram_bytes = v.total_vram_bytes;
  measured_at = v.measured_at;
  link_bw_bpus = v.link_bw_bpus;
  hbm_bw_bpus = v.hbm_bw_bpus;
  gpu_bf_tput = v.gpu_bf_tput;
  ipc_rtt_us = v.ipc_rtt_us;
  cpu_dist_tput = v.cpu_dist_tput;
  gpu_cagra_lat_us = v.gpu_cagra_lat_us;
}

profile_of-body_v1 :
    (p : HwProfile)
    → BodyFits p
    → (crc : ℕ) → p.reserved ≡ 0
    → profile_of profile_magic 1 crc (body_v1 p) ≡ record p {
      magic = profile_magic;
      version = 1;
      body_crc32 = crc;
      cpu_dist_tput = default_cpu_dist;
      gpu_cagra_lat_us = default_cagra_lat;
    }
unfolding profile_of body_v1 le
profile_of-body_v1 p v crc e = λ i. record {
  magic = profile_magic;
  version = 1;
  body_crc32 = crc;
  probe_status = of_le-le 4 p.probe_status v.probe_status i;
  gpu_name = of_le-le 64 p.gpu_name v.gpu_name i;
  n_gpus = of_le-le 4 p.n_gpus v.n_gpus i;
  reserved = of_le-le 4 p.reserved (omega (arith, e)) i;
  total_vram_bytes = of_le-le 8 p.total_vram_bytes v.total_vram_bytes i;
  measured_at = of_le-le 8 p.measured_at v.measured_at i;
  link_bw_bpus = of_le-le 8 p.link_bw_bpus v.link_bw_bpus i;
  hbm_bw_bpus = of_le-le 8 p.hbm_bw_bpus v.hbm_bw_bpus i;
  gpu_bf_tput = of_le-le 8 p.gpu_bf_tput v.gpu_bf_tput i;
  ipc_rtt_us = of_le-le 8 p.ipc_rtt_us v.ipc_rtt_us i;
  cpu_dist_tput = default_cpu_dist;
  gpu_cagra_lat_us = default_cagra_lat;
}

append-read :
    (p : HwProfile) (rest : List ℕ)
    → p.body_crc32 ≡ crc32 (body_v2 p)
    → hw_profile_read ((prefix_bytes profile_magic 2 p.body_crc32 ++ body_v2 p) ++ rest)
      ≡ hw_profile_read (prefix_bytes profile_magic 2 (crc32 (body_v2 p)) ++ (body_v2 p ++ rest))
append-read p rest e =
    ap hw_profile_read (append_assoc (prefix_bytes profile_magic 2 p.body_crc32) (body_v2 p) rest)
    ∙ ap (λ (c : ℕ). hw_profile_read (prefix_bytes profile_magic 2 c ++ (body_v2 p ++ rest))) e

-- With room in the file the profile is written whole, with magic, version and checksum stamped and
-- `reserved` cleared, and it reads back as it then stands in memory, whatever is behind it.
pub hw_profile_read-hw_profile_write :
    (f : OutFile) (p : HwProfile) (rest : List ℕ)
    → BodyFits p
    → 152 ≤ f.room
    → let written =
        prefix_bytes profile_magic profile_version (stamp p).body_crc32 ++ body_v2 (stamp p) in
      (hw_profile_write f p
        ≡ ((true, record { bytes = f.bytes ++ written; room = f.room - 152 }), stamp p))
      × (hw_profile_read (written ++ rest) ≡ some (stamp p))
unfolding hw_profile_write stamp
hw_profile_read-hw_profile_write f p rest v room =
    let p' = stamp p in
    let raw = prefix_bytes profile_magic profile_version p'.body_crc32 in
    let body = body_v2 p' in
    let size : length (raw ++ body) ≡ 152 = omega (
      arith,
      length-append raw body,
      length-prefix_bytes profile_magic profile_version p'.body_crc32,
      length-body_v2 p',
    ) in
    let (m, ver, res, crc) = stamp-fields p in
    let back : profile_of profile_magic 2 (crc32 body) body ≡ p' =
      ap₂ (λ (n c : ℕ). profile_of n 2 c body) (sym m) (sym crc)
      ∙ profile_of-body_v2 p' (stamp-BodyFits p v) ver res in
    (
      rw (m, ver)
          (ap (λ w. (w, p')) (fwrite_fits (raw ++ body) f (omega (arith, size)))
            ∙ ap
                (λ (n : ℕ).
                  ((true, record { bytes = f.bytes ++ (raw ++ body); room = f.room - n }), p'))
                size),
      append-read p' rest crc
          ∙ read_known 2 152 body rest (omega arith) size_two (length-body_v2 p')
              (ap (λ q. q.reserved) back ∙ res)
          ∙ ap (λ q. some q) back,
    )

-- A file of version 1 is accepted too, and leaves the two fields that it lacks at their defaults.
hw_profile_read_v1 :
    (p : HwProfile) (rest : List ℕ)
    → BodyFits p
    → p.reserved ≡ 0
    → hw_profile_read (prefix_bytes profile_magic 1 (crc32 (body_v1 p)) ++ (body_v1 p ++ rest))
      ≡ some (record p {
        magic = profile_magic;
        version = 1;
        body_crc32 = crc32 (body_v1 p);
        cpu_dist_tput = default_cpu_dist;
        gpu_cagra_lat_us = default_cagra_lat;
      })
hw_profile_read_v1 p rest v res =
    let back = profile_of-body_v1 p v (crc32 (body_v1 p)) res in
    read_known 1 136 (body_v1 p) rest (omega arith) size_one (length-body_v1 p)
      (ap (λ q. q.reserved) back ∙ res)
    ∙ ap (λ q. some q) back
