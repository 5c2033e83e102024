-- ===== src/Tests/Daemons.antt =====
-- Runs of the daemon (src/daemon.rs) on a concrete backend, and the witnesses.
use nftblock.Prelude.{◌≡◌, refl, true, false, Option, none, some, List, [], ◌∷◌}
use nftblock.Prelude.Results.{err}
use nftblock.Zones.{Direction}
use nftblock.Text.{trim, trim_start, is_whitespace}
use nftblock.Blocklist.{boundary_elements}
use nftblock.Blocklist.Stream.Control.{count_interval, push_interval, interval_of}
use nftblock.Blocklist.Stream.{
  stream_chunks, run_chunks, finish, take_lines, take_line, take_parsed, take_net, take_v4, take_v6,
  begin_v6, begin_first, extend_v4, extend_v6, flush_pending, flush_taken, flush_interval,
  emit_chunk, emitted, follows, ipv6_last,
}
use nftblock.Config.{uses_nftables, blocklist_path}
use nftblock.Netlink.{get, set, apply_stats, ActiveGenerations, no_generations, Health}
use nftblock.Daemon.{
  reload_active, stage, open_lines, populate, staged, discard_all, rejected, activate, commit,
  verify_candidate, accepts, State, reload_nft_for, unhealthy,
}
use nftblock.Daemon.Watch.{Tick, Received, EventKind, Watching, watch_loop}
use nftblock.Daemon.Traced.{
  Agrees, Call, switched, Traced, traced, told_by, reload_nft_for_failed, watch_loop-Agrees,
  ran-Agrees,
}
use nftblock.Daemon.Start.{ran, Host}
use nftblock.Tests.Samples.{sample_net}
use nftblock.Tests.Maps.{SampleFile, sample_files}
use nftblock.Tests.Backends.{
  sample_backend, blocked, sample_rule, sample_manager, sample_config, SampleState,
}

abbrev SampleDaemon : Type 0
SampleDaemon = State sample_files sample_net (traced sample_backend) sample_manager sample_config

abbrev backend_with : List Call → Health → Traced SampleState
backend_with calls health = record {
  state = record { generations = 0; health = health };
  calls = calls;
}

abbrev daemon_with : Option ActiveGenerations → List Call → Health → SampleDaemon
daemon_with active calls health = record {
  rules = [];
  protected = [];
  active = active;
  backend = backend_with calls health;
  nft_started = true;
  xdp = none;
  xdp_started = false;
}

-- Generations without sets are active.
abbrev damaged : SampleDaemon
damaged = daemon_with (some no_generations) (switched no_generations ∷ []) Health.layout_damaged

-- The new sets are rejected: they are not healthy.
abbrev refused : SampleDaemon
refused = record damaged {
  backend = record {
    state = record { generations = 1; health = Health.layout_damaged };
    calls = switched no_generations ∷ [];
  };
}

reload-damaged :
    reload_nft_for sample_files sample_net
      (traced sample_backend)
      sample_manager
      sample_config
      Direction.inbound
      damaged
    ≡ (err (unhealthy Health.layout_damaged), refused)
unfolding reload_nft_for reload_active uses_nftables blocklist_path stage open_lines populate staged
    discard_all rejected activate commit verify_candidate accepts apply_stats get set stream_chunks
    run_chunks finish take_lines take_line take_parsed take_net take_v4 take_v6 begin_v6 begin_first
    extend_v4 extend_v6 flush_pending flush_taken flush_interval emit_chunk emitted follows
    ipv6_last count_interval push_interval interval_of boundary_elements trim trim_start
    is_whitespace
reload-damaged = refl

reload_nft_for_failed_example :
    (refused.active ≡ some no_generations) × (told_by refused.backend.calls ≡ some no_generations)
reload_nft_for_failed_example =
    reload_nft_for_failed sample_files sample_net sample_backend sample_manager sample_config
      Direction.inbound damaged refused (unhealthy Health.layout_damaged) refl reload-damaged

-- A change of the blocklist, and a second iteration after the debounce.
abbrev changed : List (Tick SampleFile)
changed =
    record {
      received = Received.observed (record { kind = EventKind.other; paths = blocked ∷ [] });
      inserted_at = λ d. 1000;
      now = 1001;
      outbound_first = false;
    }
    ∷ record {
      received = Received.timeout;
      inserted_at = λ d. 0;
      now = 1600;
      outbound_first = false;
    }
    ∷ []

abbrev idle : Watching sample_files sample_net (traced sample_backend) sample_manager sample_config
idle = record {
  daemon = damaged;
  pending = record { inbound = none; outbound = none };
  next_reconcile = 60000;
}

watch_loop-Agrees_example :
    Agrees sample_files sample_net sample_backend sample_manager sample_config
      (watch_loop sample_files sample_net
        (traced sample_backend)
        sample_manager
        sample_config
        changed
        idle).1.daemon
watch_loop-Agrees_example =
    watch_loop-Agrees sample_files sample_net sample_backend sample_manager sample_config changed
      idle refl

abbrev sample_host : Host SampleFile
sample_host = record { watches = λ ps. true; registers_signals = true }

abbrev fresh_daemon : SampleDaemon
fresh_daemon = record (daemon_with none [] Health.healthy) { rules = sample_rule ∷ [] }

ran-Agrees_example :
    Agrees sample_files sample_net sample_backend sample_manager sample_config
      (ran sample_files sample_net
        (traced sample_backend)
        sample_manager
        sample_config
        sample_host
        0
        changed
        fresh_daemon).1
ran-Agrees_example =
    ran-Agrees sample_files sample_net sample_backend sample_manager sample_config sample_host 0
      changed fresh_daemon refl refl

abbrev late : Tick SampleFile
late = record {
  received = Received.timeout;
  inserted_at = λ d. 0;
  now = 1600;
  outbound_first = false;
}

-- The reload has failed, and is not tried again.
abbrev waiting :
    Watching sample_files sample_net (traced sample_backend) sample_manager sample_config
waiting = record idle { pending = record { inbound = some 1500; outbound = some 1700 } }

abbrev waited :
    Watching sample_files sample_net (traced sample_backend) sample_manager sample_config
waited = record {
  daemon = refused;
  pending = record { inbound = none; outbound = some 1700 };
  next_reconcile = 60000;
}
