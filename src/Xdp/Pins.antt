-- ===== src/Xdp/Pins.antt =====
-- The links that `reconcile_links` of src/xdp.rs pins and unpins in the kernel, next to those that
-- the manager has in its map.
use nftblock.Prelude.{
  ℕ, ◌≡◌, refl, sym, ap, ◌∙◌, Bool, true, false, not, ◌&&◌, ◌||◌, Option, none, some, List, [], ◌∷◌,
  ◌++◌, ◌==◌, if◌then◌else◌, arith, ==→≡,
}
use nftblock.Prelude.Results.{Result, ok, err}
use nftblock.Prelude.Effects.{Outcome}
use nftblock.Text.{is_empty}
use nftblock.Config.{XdpMode}
use nftblock.Xdp.Links.{
  LinkLib, AttachMode, AttachError, Links, Attached, contains_key, link_of, remove, modes_of,
  pinned, tried, unpinned, attach_modes, attach, roll_back, missing, and_attached,
  unsupported_native, link_failed, attach_all, reconcile_links,
}
use nftblock.Xdp.RollBack.{member, contains_key-remove, SameLinks, MoreLinks, links-reconcile_links}

-- A pinned link, with its interface.
pub record Pin (L : Type 0) : Type 0 where
  pub interface : ℕ
  pub link : L

-- The kernel, and the interfaces with a link that has been pinned, and that has not been asked to be
-- unpinned since.
pub record Ledger (S : Type 0) : Type 0 where
  pub state : S
  pub live : List ℕ

abbrev without : ℕ → List ℕ → List ℕ
without i [] = []
without i (k ∷ ks) = let rest = without i ks in if i == k then rest else k ∷ rest

member-without : (i j : ℕ) (ks : List ℕ) → member j (without i ks) ≡ (member j ks && not (j == i))
member-without i j [] = refl
member-without i j (k ∷ ks) = ground (arith, member-without i j ks)

abbrev pin_from : {S E L : Type 0} → ℕ → List ℕ → Result E L × S → Result E (Pin L) × Ledger S
pin_from i live (ok link, s) =
    (ok (record { interface = i; link = link }), record { state = s; live = i ∷ live })
pin_from i live (err e, s) = (err e, record { state = s; live = live })

-- The kernel with the record of what is pinned.
abbrev pub ledger : LinkLib → LinkLib
ledger lib = record {
  State = Ledger lib.State;
  LinkId = lib.LinkId;
  PinnedLink = Pin lib.PinnedLink;
  LinkError = lib.LinkError;
  attach_to_if_index = λ i mode t.
      let r = lib.attach_to_if_index i mode t.state in (r.0, record { state = r.1; live = t.live });
  pin = λ i id t. pin_from i t.live (lib.pin i id t.state);
  unpin = λ p t.
      let r = lib.unpin p.link t.state in
      (r.0, record { state = r.1; live = without p.interface t.live });
  raw_os_error = lib.raw_os_error;
}

module _ (lib : LinkLib) where
  -- Each link of the map is under its interface.
  abbrev Keyed : Links (ledger lib) → Type 0
  Keyed [] = Unit
  Keyed ((k, p) ∷ links) = (k ≡ p.interface) × Keyed links

  pub record MirrorsOf (live : List ℕ) (links : Links (ledger lib)) : Type 0 where
    pub same : (j : ℕ) → member j live ≡ contains_key (ledger lib) j links
    pub keyed : Keyed links

  -- The map has the links that are live.
  abbrev pub Mirrors : Attached (ledger lib) → Type 0
  Mirrors a = MirrorsOf a.kernel.live a.links

  abbrev At : ℕ → Bool → Option (Pin lib.PinnedLink) → Type 0
  At i b none = b ≡ false
  At i b (some p) = p.interface ≡ i

  link_of-At :
      (i : ℕ) (links : Links (ledger lib))
      → Keyed links
      → At i (contains_key (ledger lib) i links) (link_of (ledger lib) i links)
  link_of-At i [] h = refl
  link_of-At i ((k, p) ∷ links) (e, h) = by_key (i == k) refl (link_of-At i links h)
    where
      by_key :
          (b : Bool)
          → (i == k) ≡ b
          → At i (contains_key (ledger lib) i links) (link_of (ledger lib) i links)
          → At i
              (b || contains_key (ledger lib) i links)
              (if b then some p else link_of (ledger lib) i links)
      by_key true r g = sym e ∙ sym (==→≡ i k r)
      by_key false r g = g

  remove-Keyed :
      (i : ℕ) (links : Links (ledger lib)) → Keyed links → Keyed (remove (ledger lib) i links)
  unfolding remove
  remove-Keyed i [] h = tt
  remove-Keyed i ((k, p) ∷ links) (e, h) = by_key (i == k) (remove-Keyed i links h)
    where
      by_key :
          (b : Bool)
          → Keyed (remove (ledger lib) i links)
          → Keyed (if b then remove (ledger lib) i links else (k, p) ∷ remove (ledger lib) i links)
      by_key true g = g
      by_key false g = (e, g)

  absent :
      (i j : ℕ) (links : Links (ledger lib))
      → contains_key (ledger lib) i links ≡ false
      → contains_key (ledger lib) j links ≡ (contains_key (ledger lib) j links && not (j == i))
  absent i j links h = by_same (j == i) refl
    where
      by_same :
          (b : Bool)
          → (j == i) ≡ b
          → contains_key (ledger lib) j links ≡ (contains_key (ledger lib) j links && not b)
      by_same true r =
          let gone : contains_key (ledger lib) j links ≡ false =
            ap (λ k. contains_key (ledger lib) k links) (==→≡ j i r) ∙ h in
          ground (arith, gone)
      by_same false r = ground arith

  unpinned-same :
      (i j : ℕ) (links : Links (ledger lib)) (o : Option (Pin lib.PinnedLink))
      (s : Ledger lib.State)
      → At i (contains_key (ledger lib) i links) o
      → member j s.live ≡ contains_key (ledger lib) j links
      → member j (unpinned (ledger lib) o s).live
        ≡ (contains_key (ledger lib) j links && not (j == i))
  unpinned-same i j links none s g h = h ∙ absent i j links g
  unpinned-same i j links (some p) s g h =
      member-without p.interface j s.live
      ∙ ap (λ b. b && not (j == p.interface)) h
      ∙ ap (λ k. contains_key (ledger lib) j links && not (j == k)) g

  roll_back-Mirrors :
      (is : List ℕ) (a : Attached (ledger lib)) → Mirrors a → Mirrors (roll_back (ledger lib) is a)
  unfolding roll_back
  roll_back-Mirrors [] a m = m
  roll_back-Mirrors (i ∷ is) a m = roll_back-Mirrors is _ (record {
    same = λ j.
        unpinned-same i j a.links (link_of (ledger lib) i a.links) a.kernel
          (link_of-At i a.links m.keyed) (m.same j)
        ∙ sym (contains_key-remove (ledger lib) i j a.links);
    keyed = remove-Keyed i a.links m.keyed;
  })

  pinned-Mirrors :
      (i : ℕ) (a : Attached (ledger lib)) (live : List ℕ)
      (r : Result lib.LinkError lib.PinnedLink × lib.State)
      → MirrorsOf live a.links
      → Mirrors (pinned (ledger lib) i a (pin_from i live r)).1
  pinned-Mirrors i a live (ok link, s) m = record {
    same = λ j. ap (λ b. j == i || b) (m.same j);
    keyed = (refl, m.keyed);
  }
  pinned-Mirrors i a live (err e, s) m = m

  if-Mirrors :
      (b : Bool) (r t : Result (AttachError lib.LinkError) (Unit {0}) × Attached (ledger lib))
      → Mirrors r.1
      → Mirrors t.1
      → Mirrors (if b then r else t).1
  if-Mirrors true r t h k = h
  if-Mirrors false r t h k = k

  attach_modes-Mirrors :
      (i : ℕ) (modes : List AttachMode) (a : Attached (ledger lib))
      → Mirrors a
      → Mirrors (attach_modes (ledger lib) i modes a).1
  unfolding attach_modes
  attach_modes-Mirrors i [] a m = m
  attach_modes-Mirrors i (mode ∷ modes) a m =
      by_try (λ s n. attach_modes-Mirrors i modes (record a { kernel = s }) n)
        (not (is_empty modes)) ((ledger lib).attach_to_if_index i mode a.kernel) m
    where
      by_try :
          ((s : Ledger lib.State)
            → MirrorsOf s.live a.links
            → Mirrors (attach_modes (ledger lib) i modes (record a { kernel = s })).1)
          → (more : Bool) (r : Result lib.LinkError lib.LinkId × Ledger lib.State)
          → MirrorsOf r.1.live a.links
          → Mirrors (tried (ledger lib) i more (attach_modes (ledger lib) i modes) a r).1
      by_try k more (ok id, s) n = pinned-Mirrors i a s.live (lib.pin i id s.state) n
      by_try k more (err e, s) n =
          if-Mirrors (more && unsupported_native (ledger lib) e)
            (attach_modes (ledger lib) i modes (record a { kernel = s }))
            (err (link_failed e), record a { kernel = s }) (k s n) n

  attach_all-Mirrors :
      (mode : XdpMode) (is attached : List ℕ) (a : Attached (ledger lib))
      → Mirrors a
      → Mirrors (attach_all (ledger lib) mode is attached a).1
  unfolding attach_all attach
  attach_all-Mirrors mode [] attached a m = m
  attach_all-Mirrors mode (i ∷ is) attached a m =
      by_result (λ b n. attach_all-Mirrors mode is (attached ++ i ∷ []) b n)
        (attach_modes (ledger lib) i (modes_of mode) a) (attach_modes-Mirrors i (modes_of mode) a m)
    where
      by_result :
          ((b : Attached (ledger lib))
            → Mirrors b
            → Mirrors (attach_all (ledger lib) mode is (attached ++ i ∷ []) b).1)
          → (r : Result (AttachError lib.LinkError) (Unit {0}) × Attached (ledger lib))
          → Mirrors r.1
          → Mirrors (and_attached (ledger lib) (attach_all (ledger lib) mode is) i attached r).1
      by_result k (ok u, b) n = k b n
      by_result k (err e, b) n = roll_back-Mirrors attached b n

  -- The interfaces with a live link are the same, or also those of the list.
  abbrev pub SameLive : Attached (ledger lib) → Attached (ledger lib) → Type 0
  SameLive a b = (j : ℕ) → member j b.kernel.live ≡ member j a.kernel.live

  abbrev pub MoreLive : List ℕ → Attached (ledger lib) → Attached (ledger lib) → Type 0
  MoreLive is a b = (j : ℕ) → member j b.kernel.live ≡ (member j is || member j a.kernel.live)

  live-Outcome :
      (is : List ℕ) (a : Attached (ledger lib))
      (r : Result (AttachError lib.LinkError) (Unit {0}) × Attached (ledger lib))
      → Mirrors a
      → Mirrors r.1
      → Outcome (SameLinks (ledger lib) a) (λ _. MoreLinks (ledger lib) is a) r
      → Outcome (SameLive a) (λ _. MoreLive is a) r
  live-Outcome is a (ok u, b) m n h =
      λ j. n.same j ∙ h j ∙ ap (λ c. member j is || c) (sym (m.same j))
  live-Outcome is a (err e, b) m n h = λ j. n.same j ∙ h j ∙ sym (m.same j)

  -- When the map of the manager has the links that are pinned, then it has them after
  -- `reconcile_links` too. The interfaces with a link that is pinned, and has not been asked to be
  -- unpinned, are, when it succeeds, those that had one and those that were asked for, and when it
  -- fails, those that had one.
  pub reconcile_links-Outcome :
      (mode : XdpMode) (interfaces : List ℕ) (a : Attached (ledger lib))
      → Mirrors a
      → Mirrors (reconcile_links (ledger lib) mode interfaces a).1
        × Outcome
            (SameLive a)
            (λ _. MoreLive interfaces a)
            (reconcile_links (ledger lib) mode interfaces a)
  unfolding reconcile_links
  reconcile_links-Outcome mode interfaces a m =
      let n = attach_all-Mirrors mode (missing (ledger lib) interfaces a.links) [] a m in
      (n, live-Outcome interfaces a _ m n (links-reconcile_links (ledger lib) mode interfaces a))
