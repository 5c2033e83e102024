-- ===== src/Daemon/Loading.antt =====
-- How the loads of src/daemon.rs end: one that fails has changed nothing, and after one that does
-- not, the backend has been told the generations that are active.
use nftblock.Prelude.{
  ◌≡◌, refl, sym, ap, ◌∙◌, Bool, true, false, Option, none, some, List, [], ◌∷◌, if◌then◌else◌,
}
use nftblock.Prelude.Results.{Result, ok, err}
use nftblock.Prelude.Effects.{with_err, Outcome, after-Outcome, Outcome-of_state, Outcome-mono}
use nftblock.Files.{FileLib}
use nftblock.Blocklist.Stream.Net.{IpNetLib}
use nftblock.Zones.{Direction}
use nftblock.Config.{Config, uses_nftables}
use nftblock.Netlink.{
  Backend, BackendError, DirectionGeneration, ActiveGenerations, no_generations, set, iter,
}
use nftblock.Daemon.{
  XdpManager, State, Run, Error, with_backend, on_backend, backend_failed, rejected, stage,
  stage_all, verify_candidate, commit, activate, first_load, reload_active, reload_from,
  reload_nft_for, not_referenced, directions_of,
}
use nftblock.Daemon.Dispatch.{
  also_set, Told, Unchanged, Unchanged-refl, Unchanged-trans, on_backend-Unchanged,
  discard_all-Unchanged, stage-Unchanged, verify_candidate-Unchanged,
}

module _ (files : FileLib) (net : IpNetLib) (lib : Backend files.FilePath)
    (manager : XdpManager files.FilePath) (config : Config files.FilePath)
    (laws : Told lib config) where
  -- The backend has been told the generations `a`.
  abbrev pub Tells : ActiveGenerations → State files net lib manager config → Type 0
  Tells a d = laws.told d.backend ≡ some a

  -- What the daemon takes to be active, if anything, is what the backend has been told.
  abbrev pub Agrees : State files net lib manager config → Type 0
  Agrees d = laws.told d.backend ≡ d.active

  pub Agrees-Unchanged :
      (d d' : State files net lib manager config)
      → Unchanged files net lib manager config laws d d'
      → Agrees d
      → Agrees d'
  Agrees-Unchanged d d' u h = u.told ∙ h ∙ sym u.active

  module _ (d : State files net lib manager config) where
    -- Changed by nothing so far.
    abbrev pub AsBefore : State files net lib manager config → Type 0
    AsBefore = Unchanged files net lib manager config laws d

    rejected-Outcome :
        {A : Type 0} (Q : A → State files net lib manager config → Type 0)
        (gs : List DirectionGeneration)
        (r : Result (Error files net lib manager config) A × State files net lib manager config)
        → Outcome AsBefore Q r
        → Outcome AsBefore Q (rejected files net lib manager config gs r)
    unfolding rejected
    rejected-Outcome Q gs (ok a, e) h = h
    rejected-Outcome Q gs (err x, e) h =
        Unchanged-trans files net lib manager config laws d e _ h
          (discard_all-Unchanged files net lib manager config laws gs e)

    commit-Outcome :
        (a : ActiveGenerations) (e : State files net lib manager config)
        → Tells a e
        → Outcome AsBefore (λ _. Agrees) (commit files net lib manager config a e)
    unfolding commit
    commit-Outcome a e h =
        let e' : State files net lib manager config = record e { active = some a } in
        Agrees-Unchanged e' _
          (on_backend-Unchanged files net lib manager config laws (lib.cleanup_obsolete config a)
            (laws.cleanup_obsolete-Same a) e')
          h

    -- `switch` activates the candidate or changes nothing.
    pub activate-Outcome :
        (gs : List DirectionGeneration) (a : ActiveGenerations) (replaced : Option Direction)
        (switch : Run files net lib manager config (Unit {0}))
        (e : State files net lib manager config)
        → AsBefore e
        → ((f : State files net lib manager config)
            → AsBefore f
            → Outcome AsBefore (λ _. Tells a) (switch f))
        → Outcome AsBefore
            (λ _. Agrees)
            (activate files net lib manager config gs a replaced switch e)
    unfolding activate
    activate-Outcome gs a replaced switch e h k =
        let verified = verify_candidate files net lib manager config a replaced e in
        after-Outcome AsBefore (λ _. AsBefore) (λ _. Agrees)
          (rejected files net lib manager config gs verified) _
          (rejected-Outcome (λ _. AsBefore) gs verified
            (Outcome-of_state AsBefore verified (
              Unchanged-trans files net lib manager config laws d e _ h
                (verify_candidate-Unchanged files net lib manager config laws a replaced e))))
          λ _ f u.
            after-Outcome AsBefore (λ _. Tells a) (λ _. Agrees)
              (rejected files net lib manager config gs (switch f)) _
              (rejected-Outcome (λ _. Tells a) gs (switch f) (k f u)) λ _. commit-Outcome a

    -- An operation of the backend that tells it generations, or fails.
    switch-Outcome :
        (o : Option ActiveGenerations) (e : State files net lib manager config)
        (r : Result (BackendError lib.IoError) (Unit {0}) × lib.State)
        → AsBefore e
        → Outcome (λ t. laws.told t ≡ laws.told e.backend) (λ _ t. laws.told t ≡ o) r
        → Outcome AsBefore
            (λ _ f. laws.told f.backend ≡ o)
            (with_err {F = Error files net lib manager config} backend_failed
              (with_backend files net lib manager config e r))
    switch-Outcome o e (ok u, b) h p = p
    switch-Outcome o e (err x, b) h p =
        Unchanged-trans files net lib manager config laws d e _ h
          (record { active = refl; told = p })

    stage_all-Outcome :
        (ds : List Direction) (a : ActiveGenerations) (e : State files net lib manager config)
        → AsBefore e
        → Outcome AsBefore (λ _. AsBefore) (stage_all files net lib manager config ds a e)
    unfolding stage_all
    stage_all-Outcome [] a e h = h
    stage_all-Outcome (x ∷ ds) a e h =
        let staged = stage files net lib manager config x e in
        after-Outcome AsBefore (λ _. AsBefore) (λ _. AsBefore)
          (rejected files net lib manager config (iter a) staged) _
          (rejected-Outcome (λ _. AsBefore) (iter a) staged
            (Outcome-of_state AsBefore staged (
              Unchanged-trans files net lib manager config laws d e _ h
                (stage-Unchanged files net lib manager config laws x e))))
          λ g f u. stage_all-Outcome ds (set a x g) f u

    pub first_load-Outcome :
        Outcome AsBefore (λ _. Agrees) (first_load files net lib manager config d)
    unfolding first_load
    first_load-Outcome =
        let directions : List Direction = directions_of (uses_nftables config) in
        after-Outcome AsBefore (λ _. AsBefore) (λ _. Agrees)
          (stage_all files net lib manager config directions no_generations d) _
          (stage_all-Outcome directions no_generations d
            (Unchanged-refl files net lib manager config laws d))
          λ a e u.
            activate-Outcome (iter a) a none
              (on_backend files net lib manager config (lib.activate_initial config e.rules a)) e u
              λ f v.
                switch-Outcome (some a) f (lib.activate_initial config e.rules a f.backend) v
                  (laws.activate_initial-Outcome e.rules a f.backend)

    reload_active-Outcome :
        (x : Direction) (a : ActiveGenerations)
        → Tells a d
        → Outcome AsBefore (λ _. Agrees) (reload_active files net lib manager config x a d)
    unfolding reload_active
    reload_active-Outcome x a h =
        let staged = stage files net lib manager config x d in
        after-Outcome AsBefore (λ _. AsBefore) (λ _. Agrees) staged _
          (Outcome-of_state AsBefore staged (stage-Unchanged files net lib manager config laws x d))
          λ g e u.
            activate-Outcome (g ∷ []) (set a x g) (some x)
              (on_backend files net lib manager config (lib.activate_direction config x g)) e u
              λ f v.
                switch-Outcome (some (set a x g)) f (lib.activate_direction config x g f.backend) v
                  (Outcome-mono (λ t. laws.told t ≡ laws.told f.backend)
                    (λ t. laws.told t ≡ laws.told f.backend)
                    (λ _ t. laws.told t ≡ some (also_set (laws.told f.backend) x g))
                    (λ _ t. laws.told t ≡ some (set a x g))
                    (lib.activate_direction config x g f.backend) (λ t p. p)
                    (λ _ t p. p ∙ ap (λ o. some (also_set o x g)) (v.told ∙ h))
                    (laws.activate_direction-Outcome x g f.backend))

    reload_from-Outcome :
        (x : Direction) (o : Option ActiveGenerations)
        → laws.told d.backend ≡ o
        → Outcome AsBefore (λ _. Agrees) (reload_from files net lib manager config x o d)
    reload_from-Outcome x none h = first_load-Outcome
    reload_from-Outcome x (some a) h = reload_active-Outcome x a h

    pub reload_nft_for-Outcome :
        (x : Direction)
        → Agrees d
        → Outcome AsBefore (λ _. Agrees) (reload_nft_for files net lib manager config x d)
    unfolding reload_nft_for
    reload_nft_for-Outcome x h = by_use (uses_nftables config x)
      where
        by_use :
            (b : Bool)
            → Outcome AsBefore
                (λ _. Agrees)
                (if b
                  then reload_from files net lib manager config x d.active d
                  else (err (not_referenced x), d))
        by_use true = reload_from-Outcome x d.active h
        by_use false = Unchanged-refl files net lib manager config laws d
