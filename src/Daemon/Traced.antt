-- ===== src/Daemon/Traced.antt =====
-- A trace of the calls that src/daemon.rs makes of its backend (src/netlink.rs): the calls that
-- create, activate or repair generations and that succeed, whatever the backend is.
use nftblock.Prelude.{ℕ, ◌≡◌, refl, ap, subst, Option, none, some, List, [], ◌∷◌}
use nftblock.Prelude.Results.{Result, ok, err}
use nftblock.Prelude.Effects.{Eff, Outcome}
use nftblock.Files.{FileLib}
use nftblock.Blocklist.Stream.Net.{IpNetLib}
use nftblock.Zones.{Direction}
use nftblock.Config.{Config}
use nftblock.Netlink.{Backend, DirectionGeneration, ActiveGenerations}
use nftblock.Daemon.{XdpManager, State, Error, reload_nft_for}
use nftblock.Daemon.Watch.{Tick, Watching, watch_loop}
use nftblock.Daemon.Start.{Host, ran}
use nftblock.Daemon.Dispatch.{also_set, Told, Unchanged}
use nftblock.Daemon.Loading.{reload_nft_for-Outcome}
use nftblock.Daemon.Always.{watch_loop-Keeping, ran-Keeping}

-- A call that has succeeded.
pub data Call : Type 0 where
  bootstrapped : Call
  switched : ActiveGenerations → Call
  switched_direction : Direction → DirectionGeneration → Call

-- A backend, and the calls so far, the last one first.
pub record Traced (S : Type 0) : Type 0 where
  pub state : S
  pub calls : List Call

-- The generations that the calls have put in force: those of the last activation or repair, with
-- the later ones of a single direction, and none since the last bootstrap.
abbrev pub told_by : List Call → Option ActiveGenerations
told_by [] = none
told_by (bootstrapped ∷ calls) = none
told_by (switched a ∷ calls) = some a
told_by (switched_direction d g ∷ calls) = some (also_set (told_by calls) d g)

module _ {S E : Type 0} where
  abbrev quiet_from : {A : Type 0} → List Call → Result E A × S → Result E A × Traced S
  quiet_from calls (r, s) = (r, record { state = s; calls = calls })

  -- The call is left out of the trace.
  abbrev quiet : {A : Type 0} → Eff S E A → Eff (Traced S) E A
  quiet m t = quiet_from t.calls (m t.state)

  abbrev noted_from : Call → List Call → Result E (Unit {0}) × S → Result E (Unit {0}) × Traced S
  noted_from c calls (ok u, s) = (ok u, record { state = s; calls = c ∷ calls })
  noted_from c calls (err e, s) = (err e, record { state = s; calls = calls })

  -- The call is in the trace when it succeeds.
  abbrev noted : Call → Eff S E (Unit {0}) → Eff (Traced S) E (Unit {0})
  noted c m t = noted_from c t.calls (m t.state)

  quiet_from-Same :
      {A : Type 0} (calls : List Call) (r : Result E A × S)
      → told_by (quiet_from calls r).1.calls ≡ told_by calls
  quiet_from-Same calls (r, s) = refl

  noted_from-Outcome :
      (c : Call) (calls : List Call) (r : Result E (Unit {0}) × S)
      → Outcome
          (λ t. told_by t.calls ≡ told_by calls)
          (λ _ t. told_by t.calls ≡ told_by (c ∷ calls))
          (noted_from c calls r)
  noted_from-Outcome c calls (ok u, s) = refl
  noted_from-Outcome c calls (err e, s) = refl

-- The backend with a trace of its calls.
abbrev pub traced : {P : Type 0} → Backend P → Backend P
traced lib = record {
  State = Traced lib.State;
  IoError = lib.IoError;
  cleanup = λ config. quiet (lib.cleanup config);
  layout_status = λ config. quiet (lib.layout_status config);
  bootstrap = λ config rules. noted bootstrapped (lib.bootstrap config rules);
  begin_stage = λ config d. quiet (lib.begin_stage config d);
  populate = λ config g chunk. quiet (lib.populate config g chunk);
  activate_initial = λ config rules a. noted (switched a) (lib.activate_initial config rules a);
  activate_direction =
      λ config d g. noted (switched_direction d g) (lib.activate_direction config d g);
  discard = λ config g. quiet (lib.discard config g);
  cleanup_obsolete = λ config a. quiet (lib.cleanup_obsolete config a);
  health = λ config a. quiet (lib.health config a);
  repair_rules = λ config rules a. noted (switched a) (lib.repair_rules config rules a);
  flowtable_conflicts = λ protected. quiet (lib.flowtable_conflicts protected);
}

abbrev traced_told : {P : Type 0} (lib : Backend P) (config : Config P) → Told (traced lib) config
traced_told lib config = record {
  told = λ t. told_by t.calls;
  layout_status-Same = λ t. quiet_from-Same t.calls (lib.layout_status config t.state);
  begin_stage-Same = λ d t. quiet_from-Same t.calls (lib.begin_stage config d t.state);
  populate-Same = λ g chunk t. quiet_from-Same t.calls (lib.populate config g chunk t.state);
  discard-Same = λ g t. quiet_from-Same t.calls (lib.discard config g t.state);
  cleanup_obsolete-Same = λ a t. quiet_from-Same t.calls (lib.cleanup_obsolete config a t.state);
  health-Same = λ a t. quiet_from-Same t.calls (lib.health config a t.state);
  flowtable_conflicts-Same =
      λ protected t. quiet_from-Same t.calls (lib.flowtable_conflicts protected t.state);
  bootstrap-Outcome =
      λ rules t. noted_from-Outcome bootstrapped t.calls (lib.bootstrap config rules t.state);
  activate_initial-Outcome = λ rules a t.
      noted_from-Outcome (switched a) t.calls (lib.activate_initial config rules a t.state);
  activate_direction-Outcome = λ d g t.
      noted_from-Outcome (switched_direction d g) t.calls
        (lib.activate_direction config d g t.state);
  repair_rules-Outcome = λ rules a t.
      noted_from-Outcome (switched a) t.calls (lib.repair_rules config rules a t.state);
}

module _ (files : FileLib) (net : IpNetLib) (lib : Backend files.FilePath)
    (manager : XdpManager files.FilePath) (config : Config files.FilePath) where
  -- The generations that the daemon takes to be active are the ones that its calls have put in force.
  abbrev pub Agrees : State files net (traced lib) manager config → Type 0
  Agrees d = told_by d.backend.calls ≡ d.active

  -- However the events, the clock and the order of the pending directions run, and whatever call of
  -- the backend fails, the event loop keeps what the daemon takes to be active equal to the
  -- generations that its successful calls have put in force, for any backend.
  pub watch_loop-Agrees :
      (ticks : List (Tick files.FilePath)) (w : Watching files net (traced lib) manager config)
      → Agrees w.daemon
      → Agrees (watch_loop files net (traced lib) manager config ticks w).1.daemon
  watch_loop-Agrees =
      watch_loop-Keeping files net (traced lib) manager config (traced_told lib config)

  -- When what the daemon takes to be active is what its successful calls have put in force, a reload
  -- of nftables that fails, for whatever reason, leaves both as they were, for any backend.
  pub reload_nft_for_failed :
      (x : Direction) (d d' : State files net (traced lib) manager config)
      (e : Error files net (traced lib) manager config)
      → Agrees d
      → reload_nft_for files net (traced lib) manager config x d ≡ (err e, d')
      → (d'.active ≡ d.active) × (told_by d'.backend.calls ≡ told_by d.backend.calls)
  reload_nft_for_failed x d d' e h p =
      let u =
        subst
          (Outcome (Unchanged files net (traced lib) manager config (traced_told lib config) d)
            (λ _. Agrees))
          p
          (reload_nft_for-Outcome files net (traced lib) manager config (traced_told lib config) d x
            h) in
      (u.active, u.told)

  -- When the daemon starts with nothing active and no call made, then at the end of its run, after
  -- the load at the startup and the event loop, whether they fail or not, what it takes to be active
  -- is what its successful calls have put in force, for any backend.
  pub ran-Agrees :
      (host : Host files.FilePath) (at : ℕ) (ticks : List (Tick files.FilePath))
      (d : State files net (traced lib) manager config)
      → d.active ≡ none
      → d.backend.calls ≡ []
      → Agrees (ran files net (traced lib) manager config host at ticks d).1
  ran-Agrees host at ticks d h k =
      ran-Keeping files net (traced lib) manager config (traced_told lib config) host at ticks d
        (record { active = h; told = ap told_by k })
