-- ===== src/Examples/Profile.antt =====
-- The hardware profile file at a concrete profile.
use pg_cuvs.Base.{◌-◌, ◌≡◌, [], ◌++◌, true, some, arith}
use pg_cuvs.Sidecar.File.{OutFile}
use pg_cuvs.Sidecar.Profile.{
  HwProfile, profile_magic, profile_version, prefix_bytes, body_v2, stamp, hw_profile_write,
  hw_profile_read,
}
use pg_cuvs.Sidecar.Profile.RoundTrip.{BodyFits, hw_profile_read-hw_profile_write}

abbrev new_profile_file : OutFile
new_profile_file = record { bytes = []; room = 1000 }

abbrev profile : HwProfile
profile = record {
  magic = 0;
  version = 0;
  body_crc32 = 0;
  probe_status = 63;
  gpu_name = 0x30303141;
  n_gpus = 1;
  reserved = 0;
  total_vram_bytes = 85899345920;
  measured_at = 1700000000;
  link_bw_bpus = 0x40C7700000000000;
  hbm_bw_bpus = 0x412E848000000000;
  gpu_bf_tput = 0x408F400000000000;
  ipc_rtt_us = 0x407F400000000000;
  cpu_dist_tput = 0x4069000000000000;
  gpu_cagra_lat_us = 0x4079000000000000;
}

profile-BodyFits : BodyFits profile
profile-BodyFits = record {
  probe_status = omega arith;
  gpu_name = omega arith;
  n_gpus = omega arith;
  total_vram_bytes = omega arith;
  measured_at = omega arith;
  link_bw_bpus = omega arith;
  hbm_bw_bpus = omega arith;
  gpu_bf_tput = omega arith;
  ipc_rtt_us = omega arith;
  cpu_dist_tput = omega arith;
  gpu_cagra_lat_us = omega arith;
}

hw_profile_read-hw_profile_write_example :
    let written =
      prefix_bytes profile_magic profile_version (stamp profile).body_crc32
      ++ body_v2 (stamp profile) in
    (hw_profile_write new_profile_file profile
      ≡ ((true, record { bytes = [] ++ written; room = 1000 - 152 }), stamp profile))
    × (hw_profile_read (written ++ []) ≡ some (stamp profile))
hw_profile_read-hw_profile_write_example =
    hw_profile_read-hw_profile_write new_profile_file profile [] profile-BodyFits (omega arith)
