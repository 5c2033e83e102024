-- ===== src/Daemon/Always.antt =====
-- A view of what the backend has been told, over the whole of a run of src/daemon.rs.
use nftblock.Prelude.{
  ℕ, ◌+◌, ◌*◌, ◌≡◌, refl, sym, ◌∙◌, Bool, true, false, not, Option, none, some, List, [], ◌∷◌, leb,
  if◌then◌else◌,
}
use nftblock.Prelude.Results.{Result, ok, err}
use nftblock.Prelude.Effects.{after, ◌>>=◌, ◌>>◌, Keeps, >>=-Keeps, when, Outcome, with_err}
use nftblock.Text.{is_empty}
use nftblock.Files.{FileLib}
use nftblock.Blocklist.Stream.Net.{IpNetLib}
use nftblock.Zones.{Direction}
use nftblock.Config.{Config, uses}
use nftblock.Netlink.{Backend, BackendError, LayoutStatus}
use nftblock.Daemon.{
  XdpManager, State, Run, Error, with_backend, backend_failed, setup_failed, no_parents, on_backend,
  directions_of, reload_backends, reconcile, start_layout, load_nft, load_xdp, initial_load,
  replace_both,
}
use nftblock.Daemon.Watch.{
  Tick, Pending, Watching, due, remove, reload_due, reconcile_due, take_received, proceed,
  iteration, continue_with, watch_loop,
}
use nftblock.Daemon.Dispatch.{Told, Unchanged, on_backend-Unchanged}
use nftblock.Rules.{RenderedRule}
use nftblock.Daemon.Loading.{Agrees, Agrees-Unchanged}
use nftblock.Daemon.Start.{Host, watched, watch, loop_result, ran}
use nftblock.Daemon.Agrees.{
  Keeping, Keeping-refl, replace_both-Keeping, reconcile-Keeping, reload_backends-Keeping,
}

module _ (files : FileLib) (net : IpNetLib) (lib : Backend files.FilePath)
    (manager : XdpManager files.FilePath) (config : Config files.FilePath)
    (laws : Told lib config) where
  reload_due-Keeping :
      (ds : List Direction) (w : Watching files net lib manager config)
      → Keeping files net lib manager config laws w.daemon
          (reload_due files net lib manager config ds w).daemon
  unfolding reload_due
  reload_due-Keeping [] w h = h
  reload_due-Keeping (x ∷ ds) w h =
      reload_due-Keeping ds
        (record w {
          daemon = (reload_backends files net lib manager config x w.daemon).1;
          pending = remove x w.pending;
        })
        (reload_backends-Keeping files net lib manager config laws x w.daemon h)

  reconcile_due-Keeping :
      (now : ℕ) (w : Watching files net lib manager config)
      → Keeping files net lib manager config laws w.daemon
          (reconcile_due files net lib manager config now w).daemon
  unfolding reconcile_due
  reconcile_due-Keeping now w h = by_time (leb w.next_reconcile now)
    where
      by_time :
          (b : Bool)
          → Agrees files net lib manager config laws
              (if b
                then record w {
                  daemon = (reconcile files net lib manager config w.daemon).1;
                  next_reconcile = now + config.runtime.reconcile_secs * 1000;
                }
                else w).daemon
      by_time true = reconcile-Keeping files net lib manager config laws w.daemon h
      by_time false = h

  -- A run of the loop on a tick.
  looped :
      (ticks : List (Tick files.FilePath)) (tick : Tick files.FilePath)
      (w : Watching files net lib manager config) (o : Option Pending)
      → ((v : Watching files net lib manager config)
          → Keeping files net lib manager config laws v.daemon
              (watch_loop files net lib manager config ticks v).1.daemon)
      → Keeping files net lib manager config laws w.daemon
          (continue_with files net lib manager config
            (watch_loop files net lib manager config ticks)
            w
            (proceed files net lib manager config tick w o)).1.daemon
  looped ticks tick w none k h = h
  looped ticks tick w (some p) k h =
      let ds : List Direction = due tick.outbound_first tick.now p in
      let v : Watching files net lib manager config = record w { pending = p } in
      k _ (
        reconcile_due-Keeping tick.now (reload_due files net lib manager config ds v)
          (reload_due-Keeping ds v h))

  pub watch_loop-Keeping :
      (ticks : List (Tick files.FilePath)) (w : Watching files net lib manager config)
      → Agrees files net lib manager config laws w.daemon
      → Agrees files net lib manager config laws
          (watch_loop files net lib manager config ticks w).1.daemon
  unfolding watch_loop iteration
  watch_loop-Keeping [] w h = h
  watch_loop-Keeping (tick ∷ ticks) w h =
      looped ticks tick w
        (take_received files net lib manager config tick.inserted_at tick.received w.pending)
        (watch_loop-Keeping ticks) h

  -- Nothing is active, and the backend has been told nothing.
  pub record Idle (d : State files net lib manager config) : Type 0 where
    pub active : d.active ≡ none
    pub told : laws.told d.backend ≡ none

  Idle-Unchanged :
      (d e : State files net lib manager config)
      → Idle d
      → Unchanged files net lib manager config laws d e
      → Idle e
  Idle-Unchanged d e i u = record { active = u.active ∙ i.active; told = u.told ∙ i.told }

  Agrees-of_Idle :
      (d : State files net lib manager config) → Idle d → Agrees files net lib manager config laws d
  Agrees-of_Idle d i = i.told ∙ sym i.active

  abbrev StaysIdle : {A : Type 0} → Run files net lib manager config A → Type 0
  StaysIdle m = Keeps (λ d e. Idle d → Idle e) m

  StaysIdle-then :
      {A B : Type 0} (m : Run files net lib manager config A)
      (f : A → Run files net lib manager config B)
      → StaysIdle m
      → ((a : A) → StaysIdle (f a))
      → StaysIdle (m >>= f)
  StaysIdle-then = >>=-Keeps (λ d e. Idle d → Idle e) (λ d e f p q i. q (p i))

  bootstrap-StaysIdle :
      (rules : List RenderedRule)
      → StaysIdle (on_backend files net lib manager config (lib.bootstrap config rules))
  bootstrap-StaysIdle rules d i =
      by_result (lib.bootstrap config rules d.backend) (laws.bootstrap-Outcome rules d.backend)
    where
      by_result :
          (r : Result (BackendError lib.IoError) (Unit {0}) × lib.State)
          → Outcome (λ t. laws.told t ≡ laws.told d.backend) (λ _ t. laws.told t ≡ none) r
          → Idle
              (with_err {F = Error files net lib manager config} backend_failed
                (with_backend files net lib manager config d r)).1
      by_result (ok u, b) p = record { active = i.active; told = p }
      by_result (err x, b) p = record { active = i.active; told = p ∙ i.told }

  start_layout-StaysIdle :
      (layout : LayoutStatus) → StaysIdle (start_layout files net lib manager config layout)
  start_layout-StaysIdle LayoutStatus.absent d i = bootstrap-StaysIdle d.rules d i
  start_layout-StaysIdle LayoutStatus.current d i = i
  start_layout-StaysIdle LayoutStatus.incompatible d i = i

  kept_after_start :
      (r : Result (Error files net lib manager config) (Unit {0})
        × State files net lib manager config)
      (f : Run files net lib manager config (Unit {0}))
      → Idle r.1
      → Keeps (Keeping files net lib manager config laws) f
      → Agrees files net lib manager config laws (after r (λ _. f)).1
  kept_after_start (ok u, d) f h k = k d (Agrees-of_Idle d h)
  kept_after_start (err e, d) f h k = Agrees-of_Idle d h

  -- The run of `load_nft` up to `replace_both`.
  abbrev begun : Run files net lib manager config (Unit {0})
  begun =
      on_backend files net lib manager config (lib.layout_status config)
      >>= start_layout files net lib manager config
      >> (λ d. (ok tt, record d { nft_started = true }))

  begun-StaysIdle : StaysIdle begun
  begun-StaysIdle =
      StaysIdle-then
        (on_backend files net lib manager config (lib.layout_status config)
          >>= start_layout files net lib manager config)
        (λ _ d. (ok tt, record d { nft_started = true }))
        (StaysIdle-then (on_backend files net lib manager config (lib.layout_status config))
          (start_layout files net lib manager config)
          (λ d i. Idle-Unchanged d _ i (
            on_backend-Unchanged files net lib manager config laws (lib.layout_status config)
              laws.layout_status-Same d))
          start_layout-StaysIdle)
        (λ _ d i. record { active = i.active; told = i.told })

  load_nft-Agrees :
      (d : State files net lib manager config)
      → Idle d
      → Agrees files net lib manager config laws (load_nft files net lib manager config d).1
  unfolding load_nft
  load_nft-Agrees d h =
      kept_after_start (begun d) (replace_both files net lib manager config) (begun-StaysIdle d h)
        (replace_both-Keeping files net lib manager config laws)

  load_xdp-Keeping :
      (x : Option manager.Manager)
      → Keeps (Keeping files net lib manager config laws) (load_xdp files net lib manager config x)
  load_xdp-Keeping none d = Keeping-refl files net lib manager config laws d
  load_xdp-Keeping (some x) d =
      Agrees-Unchanged files net lib manager config laws d
        (record d { xdp_started = true; xdp = some (manager.reload config x).1 })
        (record { active = refl; told = refl })

  -- What runs after the first part keeps what it has come to.
  also-Agrees :
      (r : Result (Error files net lib manager config) (Unit {0})
        × State files net lib manager config)
      (f : Run files net lib manager config (Unit {0}))
      → Agrees files net lib manager config laws r.1
      → Keeps (Keeping files net lib manager config laws) f
      → Agrees files net lib manager config laws (after r (λ _. f)).1
  also-Agrees (ok u, d) f h k = k d h
  also-Agrees (err e, d) f h k = h

  initial_load-Agrees :
      (d : State files net lib manager config)
      → Idle d
      → Agrees files net lib manager config laws (initial_load files net lib manager config d).1
  unfolding initial_load
  initial_load-Agrees d h =
      also-Agrees (when (not (is_empty d.rules)) (load_nft files net lib manager config) d)
        (λ e. load_xdp files net lib manager config e.xdp e) (by_rules (not (is_empty d.rules)))
        (λ e. load_xdp-Keeping e.xdp e)
    where
      by_rules :
          (b : Bool)
          → Agrees files net lib manager config laws
              (when b (load_nft files net lib manager config) d).1
      by_rules true = load_nft-Agrees d h
      by_rules false = Agrees-of_Idle d h

  abbrev begin : ℕ → State files net lib manager config → Watching files net lib manager config
  begin at d = record {
    daemon = d;
    pending = record { inbound = none; outbound = none };
    next_reconcile = at + config.runtime.reconcile_secs * 1000;
  }

  watch-Keeping :
      (host : Host files.FilePath) (at : ℕ) (ticks : List (Tick files.FilePath))
      → Keeps
          (Keeping files net lib manager config laws)
          (watch files net lib manager config host at ticks)
  unfolding watch
  watch-Keeping host at ticks d h =
      by_guards (host.watches (watched files config (directions_of (uses config)) []))
        (is_empty (watched files config (directions_of (uses config)) [])) host.registers_signals
    where
      by_guards :
          (a b c : Bool)
          → Agrees files net lib manager config laws
              (if not a
                then (err setup_failed, d)
                else if b
                then (err no_parents, d)
                else if not c
                then (err setup_failed, d)
                else loop_result files net lib manager config
                    (watch_loop files net lib manager config ticks (begin at d))).1
      by_guards false b c = h
      by_guards true true c = h
      by_guards true false false = h
      by_guards true false true = watch_loop-Keeping ticks (begin at d) h

  pub ran-Keeping :
      (host : Host files.FilePath) (at : ℕ) (ticks : List (Tick files.FilePath))
      (d : State files net lib manager config)
      → Idle d
      → Agrees files net lib manager config laws
          (ran files net lib manager config host at ticks d).1
  unfolding ran
  ran-Keeping host at ticks d h =
      also-Agrees (initial_load files net lib manager config d)
        (watch files net lib manager config host at ticks) (initial_load-Agrees d h)
        (watch-Keeping host at ticks)
