-- ===== src/Xdp/RollBack.antt =====
-- What `reconcile_links` of src/xdp.rs leaves: all the links that it should, or those that it found.
use mathlib.Core.List.{append_assoc}
use nftblock.Prelude.{
  ℕ, ◌≡◌, refl, ap, ◌∙◌, subst, Bool, true, false, not, ◌&&◌, ◌||◌, List, [], ◌∷◌, ◌++◌, ◌==◌,
  if◌then◌else◌, any, any-append, arith, ==→≡,
}
use nftblock.Prelude.Results.{Result, ok, err}
use nftblock.Prelude.Effects.{Outcome, Outcome-mono}
use nftblock.Text.{is_empty}
use nftblock.Config.{XdpMode}
use nftblock.Xdp.Links.{
  LinkLib, AttachMode, AttachError, Links, Attached, contains_key, remove, modes_of, pinned, tried,
  attach_modes, attach, roll_back, missing, and_attached, unsupported_native, link_failed,
  attach_all, reconcile_links,
}

abbrev pub member : ℕ → List ℕ → Bool
member j is = any (λ i. j == i) is

module _ (lib : LinkLib) where
  pub contains_key-remove :
      (i j : ℕ) (links : Links lib)
      → contains_key lib j (remove lib i links) ≡ (contains_key lib j links && not (j == i))
  unfolding remove
  contains_key-remove i j [] = refl
  contains_key-remove i j ((k, link) ∷ links) = ground (arith, contains_key-remove i j links)

  contains_key-roll_back :
      (j : ℕ) (is : List ℕ) (a : Attached lib)
      → contains_key lib j (roll_back lib is a).links
        ≡ (contains_key lib j a.links && not (member j is))
  unfolding roll_back
  contains_key-roll_back j [] a = ground arith
  contains_key-roll_back j (i ∷ is) a =
      contains_key-roll_back j is _
      ∙ ap (λ b. b && not (member j is)) (contains_key-remove i j a.links)
      ∙ ground arith

  -- The interfaces with a link are the same, or also those of the list.
  abbrev pub SameLinks : Attached lib → Attached lib → Type 0
  SameLinks a b = (j : ℕ) → contains_key lib j b.links ≡ contains_key lib j a.links

  abbrev pub MoreLinks : List ℕ → Attached lib → Attached lib → Type 0
  MoreLinks is a b =
      (j : ℕ) → contains_key lib j b.links ≡ (member j is || contains_key lib j a.links)

  -- One interface more, or none.
  abbrev OneMore :
      ℕ → Attached lib → Result (AttachError lib.LinkError) (Unit {0}) × Attached lib → Type 0
  OneMore i a = Outcome (SameLinks a) (λ _. MoreLinks (i ∷ []) a)

  pinned-OneMore :
      (i : ℕ) (a : Attached lib) (r : Result lib.LinkError lib.PinnedLink × lib.State)
      → OneMore i a (pinned lib i a r)
  pinned-OneMore i a (ok link, s) = λ j. ground arith
  pinned-OneMore i a (err e, s) = λ j. refl

  if-OneMore :
      (i : ℕ) (a : Attached lib) (b : Bool)
      (r t : Result (AttachError lib.LinkError) (Unit {0}) × Attached lib)
      → OneMore i a r
      → OneMore i a t
      → OneMore i a (if b then r else t)
  if-OneMore i a true r t h k = h
  if-OneMore i a false r t h k = k

  attach_modes-OneMore :
      (i : ℕ) (modes : List AttachMode) (a : Attached lib)
      → OneMore i a (attach_modes lib i modes a)
  unfolding attach_modes
  attach_modes-OneMore i [] a = λ j. refl
  attach_modes-OneMore i (mode ∷ modes) a =
      by_try (λ s. attach_modes-OneMore i modes (record a { kernel = s })) (not (is_empty modes))
        (lib.attach_to_if_index i mode a.kernel)
    where
      by_try :
          ((s : lib.State)
            → OneMore i
                (record a { kernel = s })
                (attach_modes lib i modes (record a { kernel = s })))
          → (more : Bool) (r : Result lib.LinkError lib.LinkId × lib.State)
          → OneMore i a (tried lib i more (attach_modes lib i modes) a r)
      by_try k more (ok id, s) = pinned-OneMore i a (lib.pin i id s)
      by_try k more (err e, s) =
          if-OneMore i a (more && unsupported_native lib e)
            (attach_modes lib i modes (record a { kernel = s }))
            (err (link_failed e), record a { kernel = s }) (k s) (λ j. refl)

  -- None of the interfaces had a link before.
  abbrev New : List ℕ → Attached lib → Type 0
  New is a = (j : ℕ) → (member j is && contains_key lib j a.links) ≡ false

  attached-Outcome :
      (mode : XdpMode) (o : Attached lib) (is attached : List ℕ) (a : Attached lib)
      → New attached o
      → New is o
      → MoreLinks attached o a
      → Outcome
          (SameLinks o)
          (λ _. MoreLinks (attached ++ is) o)
          (attach_all lib mode is attached a)
  unfolding attach_all attach
  attached-Outcome mode o [] attached a f g h =
      λ j. h j ∙ ground (arith, any-append (λ i. j == i) attached [])
  attached-Outcome mode o (i ∷ is) attached a f g h =
      by_result
        (λ b m.
          subst
            (λ all.
              Outcome (SameLinks o) (λ _. MoreLinks all o)
                (attach_all lib mode is (attached ++ i ∷ []) b))
            (append_assoc attached (i ∷ []) is)
            (attached-Outcome mode o is (attached ++ i ∷ []) b
              (λ j. ground (arith, any-append (λ i. j == i) attached (i ∷ []), f j, g j))
              (λ j. ground (arith, g j)) m))
        (attach_modes lib i (modes_of mode) a) (attach_modes-OneMore i (modes_of mode) a)
    where
      by_result :
          ((b : Attached lib)
            → MoreLinks (attached ++ i ∷ []) o b
            → Outcome
                (SameLinks o)
                (λ _. MoreLinks (attached ++ i ∷ is) o)
                (attach_all lib mode is (attached ++ i ∷ []) b))
          → (r : Result (AttachError lib.LinkError) (Unit {0}) × Attached lib) → OneMore i a r
          → Outcome
              (SameLinks o)
              (λ _. MoreLinks (attached ++ i ∷ is) o)
              (and_attached lib (attach_all lib mode is) i attached r)
      by_result n (ok u, b) k =
          n b (λ j. ground (arith, any-append (λ i. j == i) attached (i ∷ []), k j, h j))
      by_result n (err e, b) k =
          λ j. contains_key-roll_back j attached b ∙ ground (arith, f j, h j, k j)

  missing-New : (is : List ℕ) (a : Attached lib) → New (missing lib is a.links) a
  missing-New [] a j = refl
  missing-New (i ∷ is) a j = by_link (contains_key lib i a.links) refl (missing-New is a j)
    where
      by_link :
          (b : Bool)
          → contains_key lib i a.links ≡ b
          → (member j (missing lib is a.links) && contains_key lib j a.links) ≡ false
          → (member j (if b then missing lib is a.links else i ∷ missing lib is a.links)
              && contains_key lib j a.links)
            ≡ false
      by_link true e h = h
      by_link false e h = by_same (j == i) refl
        where
          by_same :
              (c : Bool)
              → (j == i) ≡ c
              → ((c || member j (missing lib is a.links)) && contains_key lib j a.links) ≡ false
          by_same true r = ap (λ k. contains_key lib k a.links) (==→≡ j i r) ∙ e
          by_same false r = h

  member-missing :
      (is : List ℕ) (a : Attached lib) (j : ℕ)
      → (member j (missing lib is a.links) || contains_key lib j a.links)
        ≡ (member j is || contains_key lib j a.links)
  member-missing [] a j = refl
  member-missing (i ∷ is) a j = by_link (contains_key lib i a.links) refl (member-missing is a j)
    where
      by_link :
          (b : Bool)
          → contains_key lib i a.links ≡ b
          → (member j (missing lib is a.links) || contains_key lib j a.links)
            ≡ (member j is || contains_key lib j a.links)
          → (member j (if b then missing lib is a.links else i ∷ missing lib is a.links)
              || contains_key lib j a.links)
            ≡ ((j == i || member j is) || contains_key lib j a.links)
      by_link false e h = ground (arith, h)
      by_link true e h = by_same (j == i) refl
        where
          by_same :
              (c : Bool)
              → (j == i) ≡ c
              → (member j (missing lib is a.links) || contains_key lib j a.links)
                ≡ ((c || member j is) || contains_key lib j a.links)
          by_same true r =
              let here : contains_key lib j a.links ≡ true =
                ap (λ k. contains_key lib k a.links) (==→≡ j i r) ∙ e in
              ground (arith, here)
          by_same false r = h

  -- After `reconcile_links`, when it succeeds, the interfaces with a link are those that had one and
  -- those that were asked for; when it fails, they are those that had one.
  pub links-reconcile_links :
      (mode : XdpMode) (interfaces : List ℕ) (a : Attached lib)
      → Outcome (SameLinks a) (λ _. MoreLinks interfaces a) (reconcile_links lib mode interfaces a)
  unfolding reconcile_links
  links-reconcile_links mode interfaces a =
      Outcome-mono (SameLinks a) (SameLinks a) (λ _. MoreLinks (missing lib interfaces a.links) a)
        (λ _. MoreLinks interfaces a) (attach_all lib mode (missing lib interfaces a.links) [] a)
        (λ _ h. h) (λ _ b h j. h j ∙ member-missing interfaces a j)
        (attached-Outcome mode a (missing lib interfaces a.links) [] a (λ j. refl)
          (missing-New interfaces a) (λ j. refl))
