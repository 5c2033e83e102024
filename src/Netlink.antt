-- ===== src/Netlink.antt =====
-- src/netlink.rs: the generations of sets, the state of the tables, and the trait `Backend`, an
-- interface. An operation takes the state of the backend, which `&mut self` is.
pub mod Generations
pub mod Fresh
pub mod Native
pub mod Healthy
pub mod Obsolete
use nftblock.Prelude.{ℕ, Option, none, some, List, [], ◌∷◌, ◌++◌}
use nftblock.Prelude.Effects.{Eff}
use nftblock.Text.{Text}
use nftblock.Blocklist.{AddressInterval}
use nftblock.Blocklist.Stream.Control.{StreamStats}
use nftblock.Zones.{Direction, inbound, outbound}
use nftblock.Rules.{RenderedRule}
use nftblock.Config.{Config}

pub record DirectionGeneration : Type 0 where
  pub direction : Direction
  pub ipv4_set : Text
  pub ipv6_set : Text
  pub ipv4_intervals : ℕ
  pub ipv6_intervals : ℕ
  pub ipv4_boundaries : ℕ
  pub ipv6_boundaries : ℕ

pub record ActiveGenerations : Type 0 where
  pub inbound : Option DirectionGeneration
  pub outbound : Option DirectionGeneration

-- `ActiveGenerations::default()`
abbrev pub no_generations : ActiveGenerations
no_generations = record { inbound = none; outbound = none }

unfoldable pub get : ActiveGenerations → Direction → Option DirectionGeneration
get a inbound = a.inbound
get a outbound = a.outbound

unfoldable pub set : ActiveGenerations → Direction → DirectionGeneration → ActiveGenerations
set a inbound generation = record a { inbound = some generation }
set a outbound generation = record a { outbound = some generation }

abbrev option_list : {A : Type 0} → Option A → List A
option_list none = []
option_list (some a) = a ∷ []

unfoldable pub iter : ActiveGenerations → List DirectionGeneration
iter a = option_list a.inbound ++ option_list a.outbound

pub data LayoutStatus : Type 0 where
  absent current incompatible : LayoutStatus

pub data Health : Type 0 where
  healthy inbound_damaged outbound_damaged layout_damaged : Health

-- `I` is `std::io::Error`.
pub data BackendError (I : Type 0) : Type 0 where
  netlink : I → BackendError I
  disabled incompatible_layout : BackendError I
  flowtable_bypass : List Text → BackendError I
  invalid_name : Text → BackendError I

pub record Backend (P : Type 0) : Type 1 where
  pub State : Type 0
  pub IoError : Type 0
  pub cleanup : Config P → Eff State (BackendError IoError) (Unit {0})
  pub layout_status : Config P → Eff State (BackendError IoError) LayoutStatus
  pub bootstrap : Config P → List RenderedRule → Eff State (BackendError IoError) (Unit {0})
  pub begin_stage : Config P → Direction → Eff State (BackendError IoError) DirectionGeneration
  pub populate :
      Config P
      → DirectionGeneration
      → List AddressInterval
      → Eff State (BackendError IoError) (Unit {0})
  pub activate_initial :
      Config P → List RenderedRule → ActiveGenerations → Eff State (BackendError IoError) (Unit {0})
  pub activate_direction :
      Config P → Direction → DirectionGeneration → Eff State (BackendError IoError) (Unit {0})
  pub discard : Config P → DirectionGeneration → Eff State (BackendError IoError) (Unit {0})
  pub cleanup_obsolete : Config P → ActiveGenerations → Eff State (BackendError IoError) (Unit {0})
  pub health : Config P → ActiveGenerations → Eff State (BackendError IoError) Health
  pub repair_rules :
      Config P → List RenderedRule → ActiveGenerations → Eff State (BackendError IoError) (Unit {0})
  pub flowtable_conflicts : List Text → Eff State (BackendError IoError) (List Text)

unfoldable pub apply_stats : DirectionGeneration → StreamStats → DirectionGeneration
apply_stats stage stats = record stage {
  ipv4_intervals = stats.ipv4_intervals;
  ipv6_intervals = stats.ipv6_intervals;
  ipv4_boundaries = stats.ipv4_boundaries;
  ipv6_boundaries = stats.ipv6_boundaries;
}
