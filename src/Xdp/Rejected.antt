-- ===== src/Xdp/Rejected.antt =====
-- A reload (src/xdp.rs) that fails: the packet filter decides as before.
use nftblock.Prelude.{
  ℕ, zero, suc, ◌-◌, ◌<◌, ◌≡◌, refl, sym, ap, ◌∙◌, subst, Bool, true, false, not, Option, none,
  some, ◌==◌, List, arith,
}
use nftblock.Prelude.Results.{Result, ok, err}
use nftblock.Prelude.Effects.{map_err, Done, Failed, after-Failed, Failed-of_state, Done-of_state}
use nftblock.Word.{wrapping_sub}
use nftblock.Blocklist.Stream.Net.{IpNetLib}
use nftblock.Files.{FileLib}
use nftblock.Filter.{
  Control, XdpContext, slot, is_some, look_up_ipv4, look_up_ipv6, cidrwall, verdict_of, bytes_from,
}
use nftblock.Filter.Frame.{Source, source, judge}
use nftblock.Filter.Decision.{cidrwall_lem}
use nftblock.Xdp.Maps.{MapLib, MapLaws, Kernel, maps_of}
use nftblock.Xdp.{
  XdpError, XdpConfig, v4_of, v6_of, layout_version, slot_count, get_control, set_control, prepare,
  switch_to, reload, Error,
}
use nftblock.Xdp.Untouched.{Untouched, prepare-Untouched}

-- The slot that is not active, as the code computes it.
pub other_slot :
    (active : ℕ) → active < slot_count → (wrapping_sub 32 1 active == 0) ≡ not (active == 0)
other_slot zero h = refl
other_slot (suc zero) h = refl
other_slot (suc (suc n)) h = let never : ⊥ = omega arith in elim never [ ]

abbrev pub entry_slot : Option Control → ℕ
entry_slot none = 0
entry_slot (some value) = value.active_slot

module _ (lib : MapLib) where
  pub look_up_ipv4-maps_of :
      (k : Kernel lib) (a : List ℕ) (b : Bool)
      → (slot (maps_of lib k) == 0) ≡ b
      → look_up_ipv4 (maps_of lib k) a ≡ is_some (lib.look_up (v4_of lib b k) a)
  unfolding look_up_ipv4 v4_of
  look_up_ipv4-maps_of k a true e = rw e
  look_up_ipv4-maps_of k a false e = rw e

  pub look_up_ipv6-maps_of :
      (k : Kernel lib) (a : List ℕ) (b : Bool)
      → (slot (maps_of lib k) == 0) ≡ b
      → look_up_ipv6 (maps_of lib k) a ≡ is_some (lib.look_up (v6_of lib b k) a)
  unfolding look_up_ipv6 v6_of
  look_up_ipv6-maps_of k a true e = rw e
  look_up_ipv6-maps_of k a false e = rw e

  -- The filter sees the same: the control entry, and the maps of slot `b`.
  pub record SameView (b : Bool) (k k' : Kernel lib) : Type 0 where
    pub control : lib.control_entry k'.control ≡ lib.control_entry k.control
    pub v4 : v4_of lib b k' ≡ v4_of lib b k
    pub v6 : v6_of lib b k' ≡ v6_of lib b k

  Untouched-SameView : (b : Bool) (k k' : Kernel lib) → Untouched lib b k k' → SameView b k k'
  Untouched-SameView b k k' u = record {
    control = ap lib.control_entry u.control;
    v4 = u.v4;
    v6 = u.v6;
  }

  judge_same :
      (k k' : Kernel lib) (o : Option Source)
      → SameView (slot (maps_of lib k) == 0) k k'
      → judge (maps_of lib k') o ≡ judge (maps_of lib k) o
  judge_same k k' none h = refl
  judge_same k k' (some (Source.ipv4 a)) h =
      let there : (slot (maps_of lib k') == 0) ≡ (slot (maps_of lib k) == 0) =
        ap (λ o. entry_slot o == 0) h.control in
      ap verdict_of (
        look_up_ipv4-maps_of k' a _ there
        ∙ ap (λ t. is_some (lib.look_up t a)) h.v4
        ∙ sym (look_up_ipv4-maps_of k a _ refl))
  judge_same k k' (some (Source.ipv6 a)) h =
      let there : (slot (maps_of lib k') == 0) ≡ (slot (maps_of lib k) == 0) =
        ap (λ o. entry_slot o == 0) h.control in
      ap verdict_of (
        look_up_ipv6-maps_of k' a _ there
        ∙ ap (λ t. is_some (lib.look_up t a)) h.v6
        ∙ sym (look_up_ipv6-maps_of k a _ refl))

  pub cidrwall_same :
      (k k' : Kernel lib) (ctx : XdpContext)
      → SameView (slot (maps_of lib k) == 0) k k'
      → cidrwall ctx (maps_of lib k') ≡ cidrwall ctx (maps_of lib k)
  cidrwall_same k k' ctx h =
      cidrwall_lem ctx (maps_of lib k')
      ∙ judge_same k k'
          (source (bytes_from ctx.byte ctx.data_start (ctx.data_end - ctx.data_start))) h
      ∙ sym (cidrwall_lem ctx (maps_of lib k))

pub v4_of-control :
    (lib : MapLib) (b : Bool) (k : Kernel lib) (c : lib.ControlMap)
    → v4_of lib b (record k { control = c }) ≡ v4_of lib b k
unfolding v4_of
v4_of-control lib true k c = refl
v4_of-control lib false k c = refl

pub v6_of-control :
    (lib : MapLib) (b : Bool) (k : Kernel lib) (c : lib.ControlMap)
    → v6_of lib b (record k { control = c }) ≡ v6_of lib b k
unfolding v6_of
v6_of-control lib true k c = refl
v6_of-control lib false k c = refl

module _ (lib : MapLib) (laws : MapLaws lib) (net : IpNetLib) (files : FileLib) where
  set_control-Failed :
      (b : Bool) (k k' : Kernel lib) (n : ℕ)
      → SameView lib b k k'
      → Failed (SameView lib b k) (set_control lib net files n k')
  unfolding set_control
  set_control-Failed b k k' n h = failed_with _ refl
    where
      failed_with :
          (r : Result lib.MapError (Unit {0}) × lib.ControlMap)
          → lib.set_control (record { layout_version = layout_version; active_slot = n }) k'.control
            ≡ r
          → Failed (SameView lib b k) (
            map_err {F = Error lib net files} XdpError.map_failed r.0,
            record k' { control = r.1 },
          )
      failed_with (ok u, c) e = tt
      failed_with (err x, c) e = record {
        control = laws.set_control_failed k'.control c _ x e ∙ h.control;
        v4 = v4_of-control lib b k' c ∙ h.v4;
        v6 = v6_of-control lib b k' c ∙ h.v6;
      }

  SameView-refl : (b : Bool) (k : Kernel lib) → SameView lib b k k
  SameView-refl b k = record { control = refl; v4 = refl; v6 = refl }

  switch_to-Failed :
      (b : Bool) (k k' : Kernel lib) (active inactive : ℕ)
      → SameView lib b k k'
      → Failed (SameView lib b k) (switch_to lib net files active inactive k')
  unfolding switch_to
  switch_to-Failed b k k' active inactive h =
      after-Failed (SameView lib b k) (λ _ _. Unit {0}) (set_control lib net files inactive k') _
        (set_control-Failed b k k' inactive h) (Done-of_state (λ _. Unit {0}) _ tt) (λ _ _ _. tt)

  -- What is read is what the filter sees.
  pub get_control-Done :
      (k : Kernel lib)
      → Done (λ c s. (s ≡ k) × (slot (maps_of lib k) ≡ c.active_slot)) (get_control lib net files k)
  unfolding get_control
  get_control-Done k = read_with (lib.get_control k.control) refl
    where
      read_with :
          (r : Result lib.MapError Control)
          → lib.get_control k.control ≡ r
          → Done
              (λ (c : Control) (s : Kernel lib). (s ≡ k) × (slot (maps_of lib k) ≡ c.active_slot))
              (map_err {F = Error lib net files} XdpError.map_failed r, k)
      read_with (ok c) e = (refl, ap entry_slot (laws.get-control k.control c e))
      read_with (err x) e = tt

  get_control-state : (k : Kernel lib) → (get_control lib net files k).1 ≡ k
  unfolding get_control
  get_control-state k = refl

  reload-Failed :
      (config : XdpConfig) (path : Option files.FilePath) (k : Kernel lib)
      → slot (maps_of lib k) < slot_count
      → Failed (SameView lib (slot (maps_of lib k) == 0) k) (reload lib net files config path k)
  unfolding reload
  reload-Failed config path k few =
      let b : Bool = slot (maps_of lib k) == 0 in
      after-Failed (SameView lib b k) (λ c s. (s ≡ k) × (slot (maps_of lib k) ≡ c.active_slot))
        (get_control lib net files k) _
        (Failed-of_state (SameView lib b k) _
          (subst (SameView lib b k) (sym (get_control-state k)) (SameView-refl b k)))
        (get_control-Done k)
        λ c s (e, a).
          let other : (wrapping_sub 32 1 c.active_slot == 0) ≡ not b =
            other_slot c.active_slot (subst (λ n. n < slot_count) a few)
            ∙ ap (λ n. not (n == 0)) (sym a) in
          let u =
            prepare-Untouched lib b (wrapping_sub 32 1 c.active_slot) other config net files path
              s in
          let t : Kernel lib =
            (prepare lib net files config path (wrapping_sub 32 1 c.active_slot) s).1 in
          let same : SameView lib b k t =
            Untouched-SameView lib b k t (subst (λ k. Untouched lib b k t) e u) in
          after-Failed (SameView lib b k) (λ _. SameView lib b k)
            (prepare lib net files config path (wrapping_sub 32 1 c.active_slot) s) _
            (Failed-of_state (SameView lib b k) _ same) (Done-of_state (SameView lib b k) _ same)
            (λ _ t h. switch_to-Failed b k t c.active_slot (wrapping_sub 32 1 c.active_slot) h)

  -- When a reload fails, and the control entry names one of the two slots, the packet filter decides
  -- on every packet as it did before the reload.
  pub cidrwall-reload_failed :
      (config : XdpConfig) (path : Option files.FilePath) (k k' : Kernel lib)
      (e : Error lib net files) (ctx : XdpContext)
      → slot (maps_of lib k) < slot_count
      → reload lib net files config path k ≡ (err e, k')
      → cidrwall ctx (maps_of lib k') ≡ cidrwall ctx (maps_of lib k)
  cidrwall-reload_failed config path k k' e ctx few r = cidrwall_same lib k k' ctx (
      subst (Failed (SameView lib (slot (maps_of lib k) == 0) k)) r
        (reload-Failed config path k few))
