-- ===== src/Tests/Reloads.antt =====
-- Reloads of the XDP maps (src/xdp.rs) at concrete files, and the witnesses.
use nftblock.Prelude.{ℕ, ◌≡◌, refl, List, Option, some, [], ◌∷◌, ◌++◌, arith}
use nftblock.Prelude.Results.{Result, ok, err}
use nftblock.Text.{Text, trim, trim_start, is_whitespace}
use nftblock.Blocklist.{boundary_elements, interval_prefixes}
use nftblock.Filter.{cidrwall, verdict_of}
use nftblock.Filter.Frame.{Source}
use nftblock.Xdp.Loaded.{listed, cidrwall-reload}
use nftblock.Xdp.Maps.{Kernel, maps_of}
use nftblock.Blocklist.Stream.Control.{StreamError, count_interval, push_interval, interval_of}
use nftblock.Blocklist.Stream.{
  stream_chunks, run_chunks, finish, take_lines, take_line, take_parsed, take_net, take_v4, take_v6,
  begin_v6, begin_first, extend_v4, extend_v6, flush_pending, flush_taken, flush_interval,
  emit_chunk, emitted, follows, ipv6_last,
}
use nftblock.Xdp.{
  XdpConfig, reload, XdpError, StageError, prepare, stage, staged, clear_slot, clear_trie,
  remove_all, v4_mut, v6_mut, v4_of, v6_of, set_v4, set_v6, get_control, set_control, open_lines,
  switch_to, stage_chunk, stage_prefixes, stage_prefix, inserted_v4, inserted_v6,
}
use nftblock.Xdp.Rejected.{cidrwall-reload_failed}
use nftblock.Tests.Samples.{sample_net-IpNetLaws, sample_net}
use nftblock.Tests.Maps.{SampleFile, sample_files, sample_maps, sample_maps-MapLaws}
use nftblock.Tests.Packets.{packet, ethernet, from_ten}

abbrev small : XdpConfig
small = record { ipv4_max_entries = 1; ipv6_max_entries = 1; populate_batch_elements = 4 }

-- 10.0.0.0/8 is listed in the first slot, which is active.
abbrev kernel : Kernel sample_maps
kernel = record {
  control = some (record { layout_version = 1; active_slot = 0 });
  ipv4_a = record { prefix_len = 8; address = 0x0a000000 } ∷ [];
  ipv4_b = record { prefix_len = 8; address = 0x0b000000 } ∷ [];
  ipv6_a = [];
  ipv6_b = [];
}

abbrev ipv4_line : ℕ → Result (Unit {0}) Text
ipv4_line address = ok (b'4' ∷ address ∷ 0 ∷ b';' ∷ [])

-- Two addresses do not fit.
abbrev too_many : Option SampleFile
too_many =
    some (record { name = 1; lines = some (ipv4_line 0x0c000001 ∷ ipv4_line 0x0c000003 ∷ []) })

abbrev cleared : Kernel sample_maps
cleared = record kernel { ipv4_b = [] }

reload-too_many :
    reload sample_maps sample_net sample_files small too_many kernel
    ≡ (err (XdpError.rejected (StreamError.emit_failed (StageError.ipv4_capacity 1))), cleared)
unfolding reload prepare stage staged clear_slot clear_trie remove_all v4_mut v6_mut v4_of v6_of
    set_v4 set_v6 get_control set_control open_lines switch_to stage_chunk stage_prefixes
    stage_prefix inserted_v4 inserted_v6 interval_prefixes stream_chunks run_chunks finish
    take_lines take_line take_parsed take_net take_v4 take_v6 begin_v6 begin_first extend_v4
    extend_v6 flush_pending flush_taken flush_interval emit_chunk emitted follows ipv6_last
    count_interval push_interval interval_of boundary_elements trim trim_start is_whitespace
reload-too_many = refl

cidrwall-reload_failed_example :
    cidrwall (packet (ethernet ++ from_ten)) (maps_of sample_maps cleared)
    ≡ cidrwall (packet (ethernet ++ from_ten)) (maps_of sample_maps kernel)
cidrwall-reload_failed_example =
    cidrwall-reload_failed sample_maps sample_maps-MapLaws sample_net sample_files small too_many
      kernel cleared (XdpError.rejected (StreamError.emit_failed (StageError.ipv4_capacity 1)))
      (packet (ethernet ++ from_ten)) (omega arith) reload-too_many

abbrev one_host : Option SampleFile
one_host = some (record { name = 1; lines = some (ipv4_line 0x0a000001 ∷ []) })

-- The second slot is active, and has the list.
abbrev switched : Kernel sample_maps
switched = record {
  control = some (record { layout_version = 1; active_slot = 1 });
  ipv4_a = [];
  ipv4_b = record { prefix_len = 32; address = 0x0a000001 } ∷ [];
  ipv6_a = [];
  ipv6_b = [];
}

reload-one_host :
    reload sample_maps sample_net sample_files small one_host kernel ≡ (ok tt, switched)
unfolding reload prepare stage staged clear_slot clear_trie remove_all v4_mut v6_mut v4_of v6_of
    set_v4 set_v6 get_control set_control open_lines switch_to stage_chunk stage_prefixes
    stage_prefix inserted_v4 inserted_v6 interval_prefixes stream_chunks run_chunks finish
    take_lines take_line take_parsed take_net take_v4 take_v6 begin_v6 begin_first extend_v4
    extend_v6 flush_pending flush_taken flush_interval emit_chunk emitted follows ipv6_last
    count_interval push_interval interval_of boundary_elements trim trim_start is_whitespace
reload-one_host = refl

abbrev sender : Source
sender = Source.ipv4 (10 ∷ 0 ∷ 0 ∷ 1 ∷ [])

cidrwall-reload_example :
    (lines : List (Result (Unit {0}) Text)) × (open_lines sample_maps sample_net sample_files
        one_host
      ≡ ok lines)
    × (cidrwall (packet (ethernet ++ from_ten)) (maps_of sample_maps switched)
        ≡ verdict_of (listed sample_maps sample_net sample_files lines sender))
cidrwall-reload_example =
    cidrwall-reload sample_maps sample_maps-MapLaws sample_net sample_files sample_net-IpNetLaws
      small one_host kernel switched (packet (ethernet ++ from_ten)) sender (omega arith)
      (omega arith) reload-one_host refl
      (refl, (omega arith, (omega arith, (omega arith, (omega arith, tt)))))
