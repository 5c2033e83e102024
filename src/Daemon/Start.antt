-- ===== src/Daemon/Start.antt =====
-- `Daemon::new` and `Daemon::start` of src/daemon.rs, with the feature xdp.
use nftblock.Prelude.{
  ℕ, ◌+◌, ◌*◌, any, Bool, false, not, ◌&&◌, Option, none, some, List, [], ◌∷◌, ◌++◌, if◌then◌else◌,
}
use nftblock.Prelude.Results.{Result, ok, err, and_then}
use nftblock.Prelude.Effects.{map_err, ◌>>◌}
use nftblock.Text.{Text, is_empty}
use nftblock.Files.{FileLib}
use nftblock.Blocklist.Stream.Net.{IpNetLib}
use nftblock.Zones.{Zones, insert, Direction}
use nftblock.Zones.Load.{ParserLib}
use nftblock.Rules.{RenderedRule, render}
use nftblock.Config.{Config, uses, blocklist_path, resolve_rules, resolve_xdp_interfaces}
use nftblock.Config.{zones_failed}
use nftblock.Config.Validate.{load_zones, Error as ConfigFailure}
use nftblock.Netlink.{Backend, BackendError}
use nftblock.Daemon.{
  XdpManager, State, Run, Error, directions_of, setup_failed, no_parents, watcher_stopped,
  check_flowtables, initial_load, first_error,
}
use nftblock.Daemon.Watch.{Tick, Watching, watch_loop}

-- The set of the interfaces of the rules.
abbrev insert_option : Option Text → List Text → List Text
insert_option none set = set
insert_option (some name) set = insert name set

unfoldable pub protected_of : List RenderedRule → List Text → List Text
protected_of [] set = set
protected_of (rule ∷ rules) set =
    protected_of rules (insert_option rule.egress (insert_option rule.ingress set))

pub data NewError (C E X : Type 0) : Type 0 where
  config_failed : C → NewError C E X
  flowtables_failed : E → NewError C E X
  manager_failed : X → NewError C E X

-- How `start` ends: with the error of the run, of a cleanup, or of both.
pub data Stopped (E C : Type 0) : Type 0 where
  clean : Stopped E C
  cleanup_failed : C → Stopped E C
  failed : E → Stopped E C
  both_failed : E → C → Stopped E C

-- An error of a cleanup.
pub data CleanupError (B X : Type 0) : Type 0 where
  xdp_cleanup : X → CleanupError B X
  nft_cleanup : B → CleanupError B X

-- Whether notify and signal_hook accept what `watch` registers.
pub record Host (P : Type 0) : Type 0 where
  pub watches : List P → Bool
  pub registers_signals : Bool

module _ (files : FileLib) where
  abbrev insert_path : files.FilePath → List files.FilePath → List files.FilePath
  insert_path p ps = if any (files.same_path p) ps then ps else ps ++ p ∷ []

  abbrev insert_parent : Option files.FilePath → List files.FilePath → List files.FilePath
  insert_parent none ps = ps
  insert_parent (some p) ps = insert_path p ps

  abbrev parent_of : Option files.FilePath → Option files.FilePath
  parent_of none = none
  parent_of (some p) = files.parent p

  -- The directories that `watch` watches: those of the files in use.
  unfoldable pub watched :
      Config files.FilePath → List Direction → List files.FilePath → List files.FilePath
  watched config [] ps = ps
  watched config (d ∷ ds) ps =
      watched config ds (insert_parent (parent_of (blocklist_path config d)) ps)

module _ (files : FileLib) (net : IpNetLib) (lib : Backend files.FilePath)
    (manager : XdpManager files.FilePath) (config : Config files.FilePath) where
  -- `Daemon::new`, from the state of the backend.
  module _ (parser : ParserLib) where
    abbrev pub Failure : Type 0
    Failure =
        NewError (ConfigFailure files parser) (Error files net lib manager config)
          manager.ManagerError

    abbrev pub fresh : List RenderedRule → lib.State → State files net lib manager config
    fresh rules b = record {
      rules = rules;
      protected = protected_of rules [];
      active = none;
      backend = b;
      nft_started = false;
      xdp = none;
      xdp_started = false;
    }

    abbrev checked :
        Result (Error files net lib manager config) (Unit {0}) × State files net lib manager config
        → Result Failure (State files net lib manager config)
    checked (ok u, d) = ok d
    checked (err e, d) = err (flowtables_failed e)

    unfoldable pub check_rules :
        State files net lib manager config → Result Failure (State files net lib manager config)
    check_rules d =
        if is_empty d.rules
        then ok d
        else checked (check_flowtables files net lib manager config d.protected d)

    unfoldable pub create_manager : Zones → Result Failure (Option manager.Manager)
    create_manager zones =
        if is_empty config.xdp.rules
        then ok none
        else and_then
            (map_err (λ e. config_failed (zones_failed e)) (resolve_xdp_interfaces config zones))
            (λ interfaces.
              and_then (map_err manager_failed (manager.create config interfaces))
                (λ x. ok (some x)))

    unfoldable pub new : lib.State → Result Failure (State files net lib manager config)
    unfolding check_rules create_manager protected_of
    new b = and_then (map_err config_failed (load_zones files parser config)) λ zones.
        and_then (map_err (λ e. config_failed (zones_failed e)) (resolve_rules config zones))
          λ resolved.
            and_then (check_rules (fresh (render resolved) b))
              λ d. and_then (create_manager zones) λ x. ok (record d { xdp = x })

  -- `watch`, on the ticks until a signal. `at` is the time at which the loop begins.
  abbrev pub loop_result :
      Bool × Watching files net lib manager config
      → Result (Error files net lib manager config) (Unit {0}) × State files net lib manager config
  loop_result (stopped, w) = (if stopped then ok tt else err watcher_stopped, w.daemon)

  unfoldable pub watch :
      Host files.FilePath
      → ℕ
      → List (Tick files.FilePath)
      → Run files net lib manager config (Unit {0})
  unfolding watched
  watch host at ticks d =
      let parents : List files.FilePath = watched files config (directions_of (uses config)) [] in
      if not (host.watches parents)
      then (err setup_failed, d)
      else if is_empty parents
      then (err no_parents, d)
      else if not host.registers_signals
      then (err setup_failed, d)
      else loop_result (
          watch_loop files net lib manager config ticks (record {
            daemon = d;
            pending = record { inbound = none; outbound = none };
            next_reconcile = at + config.runtime.reconcile_secs * 1000;
          }))

  -- The cleanup after the run; the first of its errors is told.
  abbrev pub CleanupFailure : Type 0
  CleanupFailure = CleanupError (BackendError lib.IoError) manager.ManagerError

  abbrev cleanup_manager : Option manager.Manager → Result CleanupFailure (Unit {0})
  cleanup_manager none = ok tt
  cleanup_manager (some x) = map_err xdp_cleanup (manager.cleanup x)

  unfoldable pub cleanup_xdp : State files net lib manager config → Result CleanupFailure (Unit {0})
  cleanup_xdp d =
      if d.xdp_started && config.xdp.cleanup_on_exit then cleanup_manager d.xdp else ok tt

  unfoldable pub cleanup_nft : State files net lib manager config → Result CleanupFailure (Unit {0})
  cleanup_nft d =
      if d.nft_started && config.nftables.cleanup_on_exit
      then map_err nft_cleanup (lib.cleanup config d.backend).0
      else ok tt

  abbrev stopped :
      Result (Error files net lib manager config) (Unit {0})
      → Result CleanupFailure (Unit {0})
      → Stopped (Error files net lib manager config) CleanupFailure
  stopped (ok u) (ok v) = clean
  stopped (ok u) (err e) = cleanup_failed e
  stopped (err e) (ok v) = failed e
  stopped (err e) (err c) = both_failed e c

  abbrev stop :
      Result (Error files net lib manager config) (Unit {0}) × State files net lib manager config
      → Stopped (Error files net lib manager config) CleanupFailure
  stop (r, d) = stopped r (first_error (cleanup_xdp d) (cleanup_nft d))

  -- `start`: the state when the run ends, before the cleanup, and how the program ends.
  unfoldable pub ran :
      Host files.FilePath
      → ℕ
      → List (Tick files.FilePath)
      → Run files net lib manager config (Unit {0})
  unfolding watch
  ran host at ticks = initial_load files net lib manager config >> watch host at ticks

  unfoldable pub start :
      Host files.FilePath
      → ℕ
      → List (Tick files.FilePath)
      → State files net lib manager config
      → Stopped (Error files net lib manager config) CleanupFailure
  unfolding ran cleanup_xdp cleanup_nft
  start host at ticks d = stop (ran host at ticks d)
