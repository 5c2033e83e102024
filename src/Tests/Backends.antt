-- ===== src/Tests/Backends.antt =====
-- A concrete backend, XDP manager and configuration for the tests of src/daemon.rs: the backend names
-- the sets of a generation by the number of generations so far, and can be told to be unhealthy.
use nftblock.Prelude.{ℕ, ◌+◌, none, some, [], ◌∷◌}
use nftblock.Prelude.Results.{ok}
use nftblock.Prelude.Effects.{pure}
use nftblock.Text.{codes}
use nftblock.Zones.{Direction, Chain, RuleMapping}
use nftblock.Rules.{RenderedRule, AddressField}
use nftblock.Config.{Config, default_nftables, default_xdp, default_runtime}
use nftblock.Netlink.{Backend, DirectionGeneration, LayoutStatus, Health}
use nftblock.Daemon.{XdpManager}
use nftblock.Tests.Samples.{Refused}
use nftblock.Tests.Maps.{SampleFile}

pub record SampleState : Type 0 where
  pub generations : ℕ
  pub health : Health

abbrev generation_of : Direction → ℕ → DirectionGeneration
generation_of direction n = record {
  direction = direction;
  ipv4_set = n ∷ b'4' ∷ [];
  ipv6_set = n ∷ b'6' ∷ [];
  ipv4_intervals = 0;
  ipv6_intervals = 0;
  ipv4_boundaries = 0;
  ipv6_boundaries = 0;
}

abbrev pub sample_backend : Backend SampleFile
sample_backend = record {
  State = SampleState;
  IoError = Refused;
  cleanup = λ config. pure tt;
  layout_status = λ config. pure LayoutStatus.current;
  bootstrap = λ config rules. pure tt;
  begin_stage = λ config d s.
      (ok (generation_of d s.generations), record s { generations = s.generations + 1 });
  populate = λ config g chunk. pure tt;
  activate_initial = λ config rules a. pure tt;
  activate_direction = λ config d g. pure tt;
  discard = λ config g. pure tt;
  cleanup_obsolete = λ config a. pure tt;
  health = λ config a s. (ok s.health, s);
  repair_rules = λ config rules a. pure tt;
  flowtable_conflicts = λ protected. pure [];
}

abbrev pub sample_manager : XdpManager SampleFile
sample_manager = record {
  Manager = ℕ;
  ManagerError = Refused;
  create = λ config interfaces. ok 0;
  reload = λ config n. (ok tt, n + 1);
  reconcile = pure tt;
  cleanup = λ n. ok tt;
}

abbrev pub blocked : SampleFile
blocked = record { name = 1; lines = some (ok (b'4' ∷ 0x0c000001 ∷ 0 ∷ b';' ∷ []) ∷ []) }

abbrev pub sample_rule : RenderedRule
sample_rule = record {
  chain = Chain.forward;
  direction = Direction.inbound;
  ingress = some (codes "wan0");
  egress = none;
  address = AddressField.source;
}

abbrev forward_rule : RuleMapping
forward_rule = record {
  blocklist = Direction.inbound;
  ingress_zones = codes "wan" ∷ [];
  egress_zones = codes "lan" ∷ [];
}

abbrev pub sample_config : Config SampleFile
sample_config = record {
  files = record { zones = none; inbound = some blocked; outbound = none };
  zones = none;
  nftables = default_nftables;
  xdp = default_xdp (record { name = 2; lines = none });
  runtime = default_runtime;
  rules = record { input = []; forward = forward_rule ∷ []; output = [] };
}
