-- ===== src/Daemon/Dispatch.antt =====
-- What a backend has been told, next to what the daemon of src/daemon.rs takes to be active, and the
-- operations that change neither.
use nftblock.Prelude.{
  ◌≡◌, refl, ◌∙◌, Bool, true, false, Option, none, some, List, [], ◌∷◌, if◌then◌else◌,
}
use nftblock.Prelude.Results.{ok, err}
use nftblock.Prelude.Effects.{Outcome, Eff, ◌>>=◌, pure, throw, lift, Keeps, >>=-Keeps, Outcome}
use nftblock.Text.{Text, is_empty}
use nftblock.Files.{FileLib}
use nftblock.Blocklist.{AddressInterval}
use nftblock.Blocklist.Stream.Net.{IpNetLib}
use nftblock.Blocklist.Stream.{stream_chunks}
use nftblock.Blocklist.Stream.Replay.Keeping.{stream_chunks-Keeps}
use nftblock.Zones.{Direction}
use nftblock.Rules.{RenderedRule}
use nftblock.Config.{Config, blocklist_path}
use nftblock.Netlink.{
  no_generations, Backend, flowtable_bypass, DirectionGeneration, ActiveGenerations, set,
}
use nftblock.Daemon.{
  XdpManager, State, Run, Lines, Populated, with_backend, on_backend, on_xdp, on_manager,
  refuse_conflicts, backend_failed, check_flowtables, discard_all, open_lines, staged, populate,
  stage, verify_candidate, accepts,
}

-- A generation in force for one direction, besides those that were.
abbrev pub also_set : Option ActiveGenerations → Direction → DirectionGeneration → ActiveGenerations
also_set none d g = set no_generations d g
also_set (some a) d g = set a d g

-- A view of what a backend has been told: an activation or a repair that succeeds tells it the
-- generations, a bootstrap that succeeds tells it that there are none, and nothing else tells it any.
-- `Traced` has the view that this is made for, of any backend with a trace of its calls.
pub record Told {P : Type 0} (lib : Backend P) (config : Config P) : Type 0 where
  pub told : lib.State → Option ActiveGenerations
  pub layout_status-Same : Keeps (λ s t. told t ≡ told s) (lib.layout_status config)
  pub begin_stage-Same : (d : Direction) → Keeps (λ s t. told t ≡ told s) (lib.begin_stage config d)
  pub populate-Same :
      (g : DirectionGeneration) (chunk : List AddressInterval)
      → Keeps (λ s t. told t ≡ told s) (lib.populate config g chunk)
  pub discard-Same :
      (g : DirectionGeneration) → Keeps (λ s t. told t ≡ told s) (lib.discard config g)
  pub cleanup_obsolete-Same :
      (a : ActiveGenerations) → Keeps (λ s t. told t ≡ told s) (lib.cleanup_obsolete config a)
  pub health-Same : (a : ActiveGenerations) → Keeps (λ s t. told t ≡ told s) (lib.health config a)
  pub flowtable_conflicts-Same :
      (protected : List Text) → Keeps (λ s t. told t ≡ told s) (lib.flowtable_conflicts protected)
  pub bootstrap-Outcome :
      (rules : List RenderedRule) (s : lib.State)
      → Outcome (λ t. told t ≡ told s) (λ _ t. told t ≡ none) (lib.bootstrap config rules s)
  pub activate_initial-Outcome :
      (rules : List RenderedRule) (a : ActiveGenerations) (s : lib.State)
      → Outcome
          (λ t. told t ≡ told s)
          (λ _ t. told t ≡ some a)
          (lib.activate_initial config rules a s)
  pub activate_direction-Outcome :
      (d : Direction) (g : DirectionGeneration) (s : lib.State)
      → Outcome
          (λ t. told t ≡ told s)
          (λ _ t. told t ≡ some (also_set (told s) d g))
          (lib.activate_direction config d g s)
  pub repair_rules-Outcome :
      (rules : List RenderedRule) (a : ActiveGenerations) (s : lib.State)
      → Outcome (λ t. told t ≡ told s) (λ _ t. told t ≡ some a) (lib.repair_rules config rules a s)

module _ (files : FileLib) (net : IpNetLib) (lib : Backend files.FilePath)
    (manager : XdpManager files.FilePath) (config : Config files.FilePath)
    (laws : Told lib config) where
  abbrev pub Same : lib.State → lib.State → Type 0
  Same s t = laws.told t ≡ laws.told s

  -- Neither what the daemon takes to be active has changed, nor what the backend has been told.
  pub record Unchanged (d d' : State files net lib manager config) : Type 0 where
    pub active : d'.active ≡ d.active
    pub told : laws.told d'.backend ≡ laws.told d.backend

  pub Unchanged-refl : (d : State files net lib manager config) → Unchanged d d
  Unchanged-refl d = record { active = refl; told = refl }

  pub Unchanged-trans :
      (d e f : State files net lib manager config) → Unchanged d e → Unchanged e f → Unchanged d f
  Unchanged-trans d e f p q = record { active = q.active ∙ p.active; told = q.told ∙ p.told }

  pub on_backend-Unchanged :
      {A : Type 0} (m : Eff lib.State _ A)
      → Keeps Same m
      → Keeps Unchanged (on_backend files net lib manager config m)
  on_backend-Unchanged m h d = record { active = refl; told = h d.backend }

  pub on_xdp-Unchanged :
      (m : Eff manager.Manager manager.ManagerError (Unit {0}))
      → Keeps Unchanged (on_xdp files net lib manager config m)
  on_xdp-Unchanged m d = by_manager d d.xdp
    where
      by_manager :
          (d : State files net lib manager config) (x : Option manager.Manager)
          → Unchanged d (on_manager files net lib manager config m d x).1
      by_manager d none = Unchanged-refl d
      by_manager d (some x) = record { active = refl; told = refl }

  Unchanged-then :
      {A B : Type 0} (m : Run files net lib manager config A)
      (f : A → Run files net lib manager config B)
      → Keeps Unchanged m
      → ((a : A) → Keeps Unchanged (f a))
      → Keeps Unchanged (m >>= f)
  Unchanged-then = >>=-Keeps Unchanged Unchanged-trans

  pub if-Unchanged :
      {A : Type 0} (b : Bool) (m n : Run files net lib manager config A)
      → Keeps Unchanged m
      → Keeps Unchanged n
      → Keeps Unchanged (if b then m else n)
  if-Unchanged true m n h k = h
  if-Unchanged false m n h k = k

  pub check_flowtables-Unchanged :
      (protected : List Text)
      → Keeps Unchanged (check_flowtables files net lib manager config protected)
  unfolding check_flowtables
  check_flowtables-Unchanged protected =
      if-Unchanged config.nftables.allow_flowtable_bypass (pure tt)
        (on_backend files net lib manager config (lib.flowtable_conflicts protected)
          >>= refuse_conflicts files net lib manager config)
        Unchanged-refl
        (Unchanged-then _ (refuse_conflicts files net lib manager config)
          (on_backend-Unchanged (lib.flowtable_conflicts protected)
            (laws.flowtable_conflicts-Same protected))
          λ conflicts.
            if-Unchanged (is_empty conflicts) (pure tt)
              (throw (backend_failed (flowtable_bypass conflicts))) Unchanged-refl Unchanged-refl)

  pub discard_all-Unchanged :
      (gs : List DirectionGeneration) (d : State files net lib manager config)
      → Unchanged d (discard_all files net lib manager config gs d)
  unfolding discard_all
  discard_all-Unchanged [] d = Unchanged-refl d
  discard_all-Unchanged (g ∷ gs) d =
      Unchanged-trans d _ _ (on_backend-Unchanged (lib.discard config g) (laws.discard-Same g) d)
        (discard_all-Unchanged gs _)

  staged-Unchanged :
      (d : State files net lib manager config) (g : DirectionGeneration)
      (r : Populated files net lib manager config × State files net lib manager config)
      → Unchanged d r.1
      → Unchanged d (staged files net lib manager config g r).1
  unfolding staged
  staged-Unchanged d g (ok stats, e) h = h
  staged-Unchanged d g (err x, e) h = Unchanged-trans d e _ h (discard_all-Unchanged (g ∷ []) e)

  populate-Unchanged :
      (lines : Lines files net lib manager config) (g : DirectionGeneration)
      → Keeps Unchanged (populate files net lib manager config lines g)
  unfolding populate
  populate-Unchanged lines g d =
      staged-Unchanged d g
        (with_backend files net lib manager config d (
          stream_chunks net (lib.populate config g) config.nftables.populate_batch_elements lines
            d.backend))
        (record {
          active = refl;
          told =
              stream_chunks-Keeps Same (λ s. refl) (λ s t u p q. q ∙ p) (lib.populate config g)
                (laws.populate-Same g) net config.nftables.populate_batch_elements lines d.backend;
        })

  -- A stage changes neither, whether it fails or not.
  pub stage-Unchanged :
      (direction : Direction) → Keeps Unchanged (stage files net lib manager config direction)
  unfolding stage
  stage-Unchanged direction =
      Unchanged-then
        (lift (open_lines files net lib manager config direction (blocklist_path config direction)))
        _ Unchanged-refl
        λ lines.
          Unchanged-then _ _
            (on_backend-Unchanged (lib.begin_stage config direction)
              (laws.begin_stage-Same direction))
            (populate-Unchanged lines)

  pub verify_candidate-Unchanged :
      (candidate : ActiveGenerations) (replaced : Option Direction)
      → Keeps Unchanged (verify_candidate files net lib manager config candidate replaced)
  unfolding verify_candidate
  verify_candidate-Unchanged candidate replaced =
      Unchanged-then _ _
        (on_backend-Unchanged (lib.health config candidate) (laws.health-Same candidate))
        λ health.
          if-Unchanged (accepts replaced health) (pure tt) (throw _) Unchanged-refl Unchanged-refl
