-- ===== src/Daemon.antt =====
-- src/daemon.rs: the state of the daemon, and how it loads, replaces and reconciles blocklists. The
-- log is left out; a string of `reason` is for the log alone.
pub mod Watch
pub mod Dispatch
pub mod Loading
pub mod Agrees
pub mod Start
pub mod Always
pub mod Traced
pub mod Prompt
use nftblock.Prelude.{
  ℕ, Bool, true, false, not, ◌&&◌, ◌||◌, Option, none, some, List, [], ◌∷◌, ◌++◌, if◌then◌else◌,
}
use nftblock.Prelude.Results.{Result, ok, err}
use nftblock.Prelude.Effects.{
  Eff, after, ◌>>=◌, ◌>>◌, pure, throw, when, lift, map_err, with_err, attempt,
}
use nftblock.Text.{Text, is_empty}
use nftblock.Files.{FileLib}
use nftblock.Blocklist.Stream.Net.{IpNetLib}
use nftblock.Blocklist.Stream.Control.{StreamError, StreamStats}
use nftblock.Blocklist.Stream.{stream_chunks}
use nftblock.Zones.{Direction, inbound, outbound}
use nftblock.Rules.{RenderedRule}
use nftblock.Config.{Config, uses, uses_nftables, blocklist_path, same_direction}
use nftblock.Netlink.{
  Backend, BackendError, DirectionGeneration, ActiveGenerations, no_generations, set, iter,
  apply_stats, LayoutStatus, Health, flowtable_bypass,
}

-- What the daemon calls of `XdpManager`.
pub record XdpManager (P : Type 0) : Type 1 where
  pub Manager : Type 0
  pub ManagerError : Type 0
  pub create : Config P → List Text → Result ManagerError Manager
  pub reload : Config P → Eff Manager ManagerError (Unit {0})
  pub reconcile : Eff Manager ManagerError (Unit {0})
  pub cleanup : Manager → Result ManagerError (Unit {0})

pub data DaemonError (B O I A X : Type 0) : Type 0 where
  backend_failed : B → DaemonError B O I A X
  not_configured not_referenced : Direction → DaemonError B O I A X
  open_failed : O → DaemonError B O I A X
  stage_failed : StreamError I A B → DaemonError B O I A X
  unhealthy : Health → DaemonError B O I A X
  incompatible_layout panicked no_parents setup_failed watcher_stopped : DaemonError B O I A X
  xdp_failed : X → DaemonError B O I A X

pub record Daemon (S M : Type 0) : Type 0 where
  pub rules : List RenderedRule
  pub protected : List Text
  pub active : Option ActiveGenerations
  pub backend : S
  pub nft_started : Bool
  pub xdp : Option M
  pub xdp_started : Bool

-- The health that `verify_candidate` accepts.
unfoldable pub accepts : Option Direction → Health → Bool
accepts replaced Health.healthy = true
accepts (some Direction.inbound) Health.outbound_damaged = true
accepts (some Direction.outbound) Health.inbound_damaged = true
accepts _ _ = false

-- Both run; the error is the first one.
abbrev pub first_error :
    {E : Type 0} → Result E (Unit {0}) → Result E (Unit {0}) → Result E (Unit {0})
first_error (err e) r = err e
first_error (ok u) r = r

module _ {S E : Type 0} where
  abbrev then_also : Result E (Unit {0}) × S → Eff S E (Unit {0}) → Result E (Unit {0}) × S
  then_also (r, s) n = (first_error r (n s).0, (n s).1)

  abbrev pub both : Eff S E (Unit {0}) → Eff S E (Unit {0}) → Eff S E (Unit {0})
  both m n s = then_also (m s) n

-- `[Inbound, Outbound].into_iter().filter(…)`
abbrev pub directions_of : (Direction → Bool) → List Direction
directions_of p =
    (if p Direction.inbound then Direction.inbound ∷ [] else [])
    ++ (if p Direction.outbound then Direction.outbound ∷ [] else [])

module _ (files : FileLib) (net : IpNetLib) (lib : Backend files.FilePath)
    (manager : XdpManager files.FilePath) (config : Config files.FilePath) where
  abbrev pub State : Type 0
  State = Daemon lib.State manager.Manager

  abbrev pub Error : Type 0
  Error =
      DaemonError (BackendError lib.IoError) files.OpenError files.IoError net.AddrParseError
        manager.ManagerError

  abbrev pub Run : Type 0 → Type 0
  Run A = Eff State Error A

  abbrev pub Lines : Type 0
  Lines = List (Result files.IoError Text)

  abbrev pub with_backend : {E A : Type 0} → State → Result E A × lib.State → Result E A × State
  with_backend d (r, b) = (r, record d { backend = b })

  abbrev pub on_backend : {A : Type 0} → Eff lib.State (BackendError lib.IoError) A → Run A
  on_backend m d = with_err backend_failed (with_backend d (m d.backend))

  abbrev pub on_manager :
      Eff manager.Manager manager.ManagerError (Unit {0})
      → State
      → Option manager.Manager
      → Result Error (Unit {0}) × State
  on_manager m d none = (ok tt, d)
  on_manager m d (some x) = (map_err xdp_failed (m x).0, record d { xdp = some (m x).1 })

  -- `if let Some(xdp) = &mut self.xdp`
  abbrev pub on_xdp : Eff manager.Manager manager.ManagerError (Unit {0}) → Run (Unit {0})
  on_xdp m d = on_manager m d d.xdp

  abbrev pub refuse_conflicts : List Text → Run (Unit {0})
  refuse_conflicts conflicts =
      if is_empty conflicts then pure tt else throw (backend_failed (flowtable_bypass conflicts))

  unfoldable pub check_flowtables : List Text → Run (Unit {0})
  check_flowtables protected =
      if config.nftables.allow_flowtable_bypass
      then pure tt
      else on_backend (lib.flowtable_conflicts protected) >>= refuse_conflicts

  -- `if let Err(cleanup) = self.backend.discard(…)`, for each of the sets.
  unfoldable pub discard_all : List DirectionGeneration → State → State
  discard_all [] d = d
  discard_all (stage ∷ stages) d = discard_all stages (on_backend (lib.discard config stage) d).1

  -- The sets of an operation that fails are discarded.
  unfoldable pub rejected :
      {A : Type 0} → List DirectionGeneration → Result Error A × State → Result Error A × State
  unfolding discard_all
  rejected stages (ok a, d) = (ok a, d)
  rejected stages (err e, d) = (err e, discard_all stages d)

  unfoldable pub open_lines : Direction → Option files.FilePath → Result Error Lines
  open_lines direction none = err (not_configured direction)
  open_lines direction (some path) = map_err open_failed (files.open_blocklist path)

  abbrev pub Populated : Type 0
  Populated =
      Result (StreamError files.IoError net.AddrParseError (BackendError lib.IoError)) StreamStats

  unfoldable pub staged :
      DirectionGeneration → Populated × State → Result Error DirectionGeneration × State
  unfolding discard_all
  staged stage (ok stats, d) = (ok (apply_stats stage stats), d)
  staged stage (err e, d) = (err (stage_failed e), discard_all (stage ∷ []) d)

  unfoldable pub populate : Lines → DirectionGeneration → Run DirectionGeneration
  unfolding staged
  populate lines stage d = staged stage (
      with_backend d (
        stream_chunks net (lib.populate config stage) config.nftables.populate_batch_elements lines
          d.backend))

  unfoldable pub stage : Direction → Run DirectionGeneration
  unfolding populate open_lines
  stage direction = lift (open_lines direction (blocklist_path config direction)) >>= λ lines.
      on_backend (lib.begin_stage config direction) >>= populate lines

  unfoldable pub verify_candidate : ActiveGenerations → Option Direction → Run (Unit {0})
  unfolding accepts
  verify_candidate candidate replaced = on_backend (lib.health config candidate) >>= λ health.
      if accepts replaced health then pure tt else throw (unhealthy health)

  -- `self.active = Some(candidate)`, and the cleanup, whose error is logged.
  unfoldable pub commit : ActiveGenerations → Run (Unit {0})
  commit candidate d =
      attempt (on_backend (lib.cleanup_obsolete config candidate))
        (record d { active = some candidate })

  -- The loop of `replace_both` without active generations.
  unfoldable pub stage_all : List Direction → ActiveGenerations → Run ActiveGenerations
  unfolding stage rejected
  stage_all [] candidate d = (ok candidate, d)
  stage_all (direction ∷ directions) candidate d =
      after (rejected (iter candidate) (stage direction d))
        (λ generation. stage_all directions (set candidate direction generation))

  -- What follows a loop: a candidate is verified and activated, or its sets are discarded.
  unfoldable pub activate :
      List DirectionGeneration
      → ActiveGenerations
      → Option Direction
      → Run (Unit {0})
      → Run (Unit {0})
  unfolding verify_candidate rejected commit
  activate stages candidate replaced switch d =
      after (rejected stages (verify_candidate candidate replaced d))
        λ _ e. after (rejected stages (switch e)) λ _. commit candidate

  unfoldable pub first_load : Run (Unit {0})
  unfolding stage_all activate
  first_load = stage_all (directions_of (uses_nftables config)) no_generations >>= λ candidate d.
      activate (iter candidate) candidate none
        (on_backend (lib.activate_initial config d.rules candidate)) d

  -- `reload_nft_for` with active generations.
  unfoldable pub reload_active : Direction → ActiveGenerations → Run (Unit {0})
  unfolding stage activate
  reload_active direction active = stage direction >>= λ generation.
      activate (generation ∷ []) (set active direction generation) (some direction)
        (on_backend (lib.activate_direction config direction generation))

  -- Without active generations `reload_nft_for` is `replace_both`, which is then the first load.
  abbrev pub reload_from : Direction → Option ActiveGenerations → Run (Unit {0})
  reload_from direction none = first_load
  reload_from direction (some active) = reload_active direction active

  unfoldable pub reload_nft_for : Direction → Run (Unit {0})
  unfolding first_load reload_active
  reload_nft_for direction d =
      if uses_nftables config direction
      then reload_from direction d.active d
      else (err (not_referenced direction), d)

  unfoldable pub reload_each : List Direction → Run (Unit {0})
  unfolding reload_nft_for
  reload_each [] = pure tt
  reload_each (direction ∷ directions) = reload_nft_for direction >> reload_each directions

  -- `expect("replacement retained active state")`
  abbrev pub verify_active : Option ActiveGenerations → Run (Unit {0})
  verify_active none = throw panicked
  verify_active (some active) = verify_candidate active none

  abbrev pub replace_from : Option ActiveGenerations → Run (Unit {0})
  replace_from none = first_load
  replace_from (some active) =
      reload_each (directions_of (uses_nftables config)) >> (λ d. verify_active d.active d)

  unfoldable pub replace_both : Run (Unit {0})
  unfolding first_load reload_each verify_candidate
  replace_both d = replace_from d.active d

  abbrev pub forget_active : Run (Unit {0})
  forget_active d = (ok tt, record d { active = none })

  abbrev pub start_layout : LayoutStatus → Run (Unit {0})
  start_layout LayoutStatus.absent d = on_backend (lib.bootstrap config d.rules) d
  start_layout LayoutStatus.current d = (ok tt, d)
  start_layout LayoutStatus.incompatible d = (err incompatible_layout, d)

  unfoldable pub load_nft : Run (Unit {0})
  unfolding replace_both
  load_nft =
      on_backend (lib.layout_status config)
      >>= start_layout
      >> (λ d. (ok tt, record d { nft_started = true }))
      >> replace_both

  abbrev pub load_xdp : Option manager.Manager → Run (Unit {0})
  load_xdp none d = (ok tt, d)
  load_xdp (some x) d =
      on_manager (manager.reload config) (record d { xdp_started = true }) (some x)

  unfoldable pub initial_load : Run (Unit {0})
  unfolding load_nft
  initial_load = (λ d. when (not (is_empty d.rules)) load_nft d) >> (λ d. load_xdp d.xdp d)

  abbrev pub heal : ActiveGenerations → Health → Run (Unit {0})
  heal active Health.healthy d = on_backend (lib.repair_rules config d.rules active) d
  heal active Health.inbound_damaged d = reload_nft_for Direction.inbound d
  heal active Health.outbound_damaged d = reload_nft_for Direction.outbound d
  heal active Health.layout_damaged d = replace_both d

  abbrev pub reconcile_layout : ActiveGenerations → LayoutStatus → Run (Unit {0})
  reconcile_layout active LayoutStatus.absent =
      (λ d. on_backend (lib.bootstrap config d.rules) d) >> forget_active >> replace_both
  reconcile_layout active LayoutStatus.incompatible = throw incompatible_layout
  reconcile_layout active LayoutStatus.current =
      on_backend (lib.health config active) >>= heal active

  abbrev pub reconcile_from : Option ActiveGenerations → Run (Unit {0})
  reconcile_from none = replace_both
  reconcile_from (some active) = on_backend (lib.layout_status config) >>= reconcile_layout active

  unfoldable pub reconcile_nft : Run (Unit {0})
  unfolding replace_both reload_nft_for
  reconcile_nft d = reconcile_from d.active d

  unfoldable pub reconcile : Run (Unit {0})
  unfolding check_flowtables reconcile_nft
  reconcile d =
      both (when (not (is_empty d.rules)) (check_flowtables d.protected >> reconcile_nft))
        (on_xdp manager.reconcile) d

  unfoldable pub reload_backends : Direction → Run (Unit {0})
  unfolding reload_nft_for
  reload_backends direction =
      if uses config direction
      then both (when (uses_nftables config direction) (reload_nft_for direction))
          (when (same_direction direction Direction.inbound) (on_xdp (manager.reload config)))
      else throw (not_referenced direction)

  unfoldable pub reload : Direction → Run (Unit {0})
  unfolding reload_backends
  reload direction = reload_backends direction
