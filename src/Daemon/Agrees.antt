-- ===== src/Daemon/Agrees.antt =====
-- What the operations of src/daemon.rs keep of a view of what the backend has been told.
use nftblock.Prelude.{
  ◌≡◌, refl, sym, ◌∙◌, Bool, true, false, not, Option, none, some, List, [], ◌∷◌, if◌then◌else◌,
}
use nftblock.Prelude.Results.{Result, ok, err}
use nftblock.Prelude.Effects.{
  Eff, after, ◌>>=◌, ◌>>◌, throw, when, with_err, Keeps, >>=-Keeps, Outcome, Outcome-mono,
  state_of_Outcome,
}
use nftblock.Text.{is_empty}
use nftblock.Files.{FileLib}
use nftblock.Blocklist.Stream.Net.{IpNetLib}
use nftblock.Zones.{Direction}
use nftblock.Rules.{RenderedRule}
use nftblock.Config.{Config, same_direction, uses, uses_nftables}
use nftblock.Netlink.{Backend, BackendError, ActiveGenerations, LayoutStatus, Health}
use nftblock.Daemon.{
  XdpManager, State, Run, Error, on_backend, on_xdp, with_backend, backend_failed, verify_candidate,
  verify_active, first_load, reload_nft_for, reload_each, replace_from, replace_both, forget_active,
  heal, reconcile_layout, reconcile_from, reconcile_nft, reconcile, check_flowtables, both,
  reload_backends, not_referenced, directions_of,
}
use nftblock.Daemon.Dispatch.{
  Told, Unchanged, on_backend-Unchanged, on_xdp-Unchanged, check_flowtables-Unchanged,
  verify_candidate-Unchanged,
}
use nftblock.Daemon.Loading.{
  Agrees, Agrees-Unchanged, AsBefore, first_load-Outcome, reload_nft_for-Outcome,
}

module _ (files : FileLib) (net : IpNetLib) (lib : Backend files.FilePath)
    (manager : XdpManager files.FilePath) (config : Config files.FilePath)
    (laws : Told lib config) where
  -- An operation after which the two agree if they did before.
  abbrev pub Keeping :
      State files net lib manager config → State files net lib manager config → Type 0
  Keeping d d' =
      Agrees files net lib manager config laws d → Agrees files net lib manager config laws d'

  Keeping-trans :
      (d e f : State files net lib manager config) → Keeping d e → Keeping e f → Keeping d f
  Keeping-trans d e f p q h = q (p h)

  pub Keeping-refl : (d : State files net lib manager config) → Keeping d d
  Keeping-refl d h = h

  pub Unchanged-Keeping :
      {A : Type 0} (m : Run files net lib manager config A)
      → Keeps (Unchanged files net lib manager config laws) m
      → Keeps Keeping m
  Unchanged-Keeping m h d = Agrees-Unchanged files net lib manager config laws d (m d).1 (h d)

  outcome-Keeping :
      (d : State files net lib manager config)
      (r : Result (Error files net lib manager config) (Unit {0})
        × State files net lib manager config)
      → (Agrees files net lib manager config laws d
          → Outcome
              (AsBefore files net lib manager config laws d)
              (λ _. Agrees files net lib manager config laws)
              r)
      → Keeping d r.1
  outcome-Keeping d r h a = state_of_Outcome (Agrees files net lib manager config laws) r (
      Outcome-mono (AsBefore files net lib manager config laws d)
        (Agrees files net lib manager config laws) (λ _. Agrees files net lib manager config laws)
        (λ _. Agrees files net lib manager config laws) r
        (λ e u. Agrees-Unchanged files net lib manager config laws d e u a) (λ _ e g. g) (h a))

  pub Keeping-then :
      {A B : Type 0} (m : Run files net lib manager config A)
      (f : A → Run files net lib manager config B)
      → Keeps Keeping m
      → ((a : A) → Keeps Keeping (f a))
      → Keeps Keeping (m >>= f)
  Keeping-then = >>=-Keeps Keeping Keeping-trans

  pub when-Keeping :
      (b : Bool) (m : Run files net lib manager config (Unit {0}))
      → Keeps Keeping m
      → Keeps Keeping (when b m)
  when-Keeping true m h = h
  when-Keeping false m h = Keeping-refl

  both-Keeping :
      (m n : Run files net lib manager config (Unit {0}))
      → Keeps Keeping m
      → Keeps Keeping n
      → Keeps Keeping (both m n)
  both-Keeping m n h k d a = k (m d).1 (h d a)

  reload_nft_for-Keeping :
      (x : Direction) → Keeps Keeping (reload_nft_for files net lib manager config x)
  reload_nft_for-Keeping x d =
      outcome-Keeping d (reload_nft_for files net lib manager config x d)
        (reload_nft_for-Outcome files net lib manager config laws d x)

  reload_each-Keeping :
      (ds : List Direction) → Keeps Keeping (reload_each files net lib manager config ds)
  unfolding reload_each
  reload_each-Keeping [] = Keeping-refl
  reload_each-Keeping (x ∷ ds) =
      Keeping-then (reload_nft_for files net lib manager config x) _ (reload_nft_for-Keeping x)
        (λ _. reload_each-Keeping ds)

  verify_active-Keeping :
      (o : Option ActiveGenerations) → Keeps Keeping (verify_active files net lib manager config o)
  verify_active-Keeping none = Keeping-refl
  verify_active-Keeping (some a) =
      Unchanged-Keeping (verify_candidate files net lib manager config a none)
        (verify_candidate-Unchanged files net lib manager config laws a none)

  replace_from-Keeping :
      (o : Option ActiveGenerations) → Keeps Keeping (replace_from files net lib manager config o)
  replace_from-Keeping none d =
      outcome-Keeping d (first_load files net lib manager config d)
        (λ _. first_load-Outcome files net lib manager config laws d)
  replace_from-Keeping (some a) d =
      Keeping-then (reload_each files net lib manager config (directions_of (uses_nftables config)))
        _ (reload_each-Keeping (directions_of (uses_nftables config)))
        (λ _ e. verify_active-Keeping e.active e) d

  pub replace_both-Keeping : Keeps Keeping (replace_both files net lib manager config)
  unfolding replace_both
  replace_both-Keeping d = replace_from-Keeping d.active d

  -- A bootstrap that succeeds forgets the generations, one that fails has changed nothing.
  bootstrap-Keeping :
      (f : Run files net lib manager config (Unit {0})) (rules : List RenderedRule)
      → Keeps Keeping f
      → Keeps Keeping (
          on_backend files net lib manager config (lib.bootstrap config rules)
          >> forget_active files net lib manager config
          >> f)
  bootstrap-Keeping f rules k d =
      by_result (lib.bootstrap config rules d.backend) (laws.bootstrap-Outcome rules d.backend)
    where
      by_result :
          (r : Result (BackendError lib.IoError) (Unit {0}) × lib.State)
          → Outcome (λ t. laws.told t ≡ laws.told d.backend) (λ _ t. laws.told t ≡ none) r
          → Keeping d
              (after
                (after
                  (with_err {F = Error files net lib manager config} backend_failed
                    (with_backend files net lib manager config d r))
                  (λ _. forget_active files net lib manager config))
                (λ _. f)).1
      by_result (ok u, b) h a = k (record d { backend = b; active = none }) h
      by_result (err x, b) h a =
          Agrees-Unchanged files net lib manager config laws d (record d { backend = b })
            (record { active = refl; told = h }) a

  -- What is active is still the same after an operation that changes nothing.
  then-Keeping :
      {A B : Type 0} (o : Option ActiveGenerations) (d : State files net lib manager config)
      (r : Result (Error files net lib manager config) A × State files net lib manager config)
      (f : A → Run files net lib manager config B)
      → Unchanged files net lib manager config laws d r.1
      → d.active ≡ o
      → ((x : A) (e : State files net lib manager config) → e.active ≡ o → Keeping e (f x e).1)
      → Keeping d (after r f).1
  then-Keeping o d (ok x, e) f u h k a =
      k x e (u.active ∙ h) (Agrees-Unchanged files net lib manager config laws d e u a)
  then-Keeping o d (err x, e) f u h k a = Agrees-Unchanged files net lib manager config laws d e u a

  repair-Keeping :
      (a : ActiveGenerations) (rules : List RenderedRule) (d : State files net lib manager config)
      → d.active ≡ some a
      → Keeping d (on_backend files net lib manager config (lib.repair_rules config rules a) d).1
  repair-Keeping a rules d h =
      outcome-Keeping d
        (on_backend files net lib manager config (lib.repair_rules config rules a) d)
        (λ _.
          repaired (lib.repair_rules config rules a d.backend)
            (laws.repair_rules-Outcome rules a d.backend))
    where
      repaired :
          (r : Result (BackendError lib.IoError) (Unit {0}) × lib.State)
          → Outcome (λ t. laws.told t ≡ laws.told d.backend) (λ _ t. laws.told t ≡ some a) r
          → Outcome
              (AsBefore files net lib manager config laws d)
              (λ _. Agrees files net lib manager config laws)
              (with_err {F = Error files net lib manager config} backend_failed
                (with_backend files net lib manager config d r))
      repaired (ok u, b) p = p ∙ sym h
      repaired (err x, b) p = record { active = refl; told = p }

  heal-Keeping :
      (a : ActiveGenerations) (health : Health) (d : State files net lib manager config)
      → d.active ≡ some a
      → Keeping d (heal files net lib manager config a health d).1
  heal-Keeping a Health.healthy d h = repair-Keeping a d.rules d h
  heal-Keeping a Health.inbound_damaged d h = reload_nft_for-Keeping Direction.inbound d
  heal-Keeping a Health.outbound_damaged d h = reload_nft_for-Keeping Direction.outbound d
  heal-Keeping a Health.layout_damaged d h = replace_both-Keeping d

  reconcile_layout-Keeping :
      (a : ActiveGenerations) (layout : LayoutStatus) (d : State files net lib manager config)
      → d.active ≡ some a
      → Keeping d (reconcile_layout files net lib manager config a layout d).1
  reconcile_layout-Keeping a LayoutStatus.absent d h =
      bootstrap-Keeping (replace_both files net lib manager config) d.rules replace_both-Keeping d
  reconcile_layout-Keeping a LayoutStatus.current d h =
      then-Keeping (some a) d (on_backend files net lib manager config (lib.health config a) d)
        (heal files net lib manager config a)
        (on_backend-Unchanged files net lib manager config laws (lib.health config a)
          (laws.health-Same a) d)
        h (heal-Keeping a)
  reconcile_layout-Keeping a LayoutStatus.incompatible d h = Keeping-refl d

  reconcile_from-Keeping :
      (o : Option ActiveGenerations) (d : State files net lib manager config)
      → d.active ≡ o
      → Keeping d (reconcile_from files net lib manager config o d).1
  reconcile_from-Keeping none d h = replace_both-Keeping d
  reconcile_from-Keeping (some a) d h =
      then-Keeping (some a) d (on_backend files net lib manager config (lib.layout_status config) d)
        (reconcile_layout files net lib manager config a)
        (on_backend-Unchanged files net lib manager config laws (lib.layout_status config)
          laws.layout_status-Same d)
        h (reconcile_layout-Keeping a)

  reconcile_nft-Keeping : Keeps Keeping (reconcile_nft files net lib manager config)
  unfolding reconcile_nft
  reconcile_nft-Keeping d = reconcile_from-Keeping d.active d refl

  xdp-Keeping :
      (m : Eff manager.Manager manager.ManagerError (Unit {0}))
      → Keeps Keeping (on_xdp files net lib manager config m)
  xdp-Keeping m =
      Unchanged-Keeping (on_xdp files net lib manager config m)
        (on_xdp-Unchanged files net lib manager config laws m)

  pub reconcile-Keeping : Keeps Keeping (reconcile files net lib manager config)
  unfolding reconcile
  reconcile-Keeping d =
      both-Keeping
        (when (not (is_empty d.rules)) (
          check_flowtables files net lib manager config d.protected
          >> reconcile_nft files net lib manager config))
        (on_xdp files net lib manager config manager.reconcile)
        (when-Keeping (not (is_empty d.rules))
          (check_flowtables files net lib manager config d.protected
            >> reconcile_nft files net lib manager config)
          (Keeping-then (check_flowtables files net lib manager config d.protected)
            (λ _. reconcile_nft files net lib manager config)
            (Unchanged-Keeping (check_flowtables files net lib manager config d.protected)
              (check_flowtables-Unchanged files net lib manager config laws d.protected))
            (λ _. reconcile_nft-Keeping)))
        (xdp-Keeping manager.reconcile) d

  if-Keeping :
      (b : Bool) (m n : Run files net lib manager config (Unit {0}))
      → Keeps Keeping m
      → Keeps Keeping n
      → Keeps Keeping (if b then m else n)
  if-Keeping true m n h k = h
  if-Keeping false m n h k = k

  pub reload_backends-Keeping :
      (x : Direction) → Keeps Keeping (reload_backends files net lib manager config x)
  unfolding reload_backends
  reload_backends-Keeping x =
      if-Keeping (uses config x)
        (both (when (uses_nftables config x) (reload_nft_for files net lib manager config x)) (
          when (same_direction x Direction.inbound)
            (on_xdp files net lib manager config (manager.reload config))))
        (throw (not_referenced x))
        (both-Keeping
          (when (uses_nftables config x) (reload_nft_for files net lib manager config x))
          (when (same_direction x Direction.inbound)
            (on_xdp files net lib manager config (manager.reload config)))
          (when-Keeping (uses_nftables config x) (reload_nft_for files net lib manager config x)
            (reload_nft_for-Keeping x))
          (when-Keeping (same_direction x Direction.inbound)
            (on_xdp files net lib manager config (manager.reload config))
            (xdp-Keeping (manager.reload config))))
        Keeping-refl
