-- ===== src/Xdp/Staged.antt =====
-- Which keys the callback of a reload (src/xdp.rs) adds to the maps of its slot.
use mathlib.Core.List.{append_assoc}
use nftblock.Prelude.{
  ℕ, ◌≡◌, refl, ap, Bool, true, false, ◌||◌, List, [], ◌∷◌, ◌++◌, leb, ◌==◌, if◌then◌else◌, arith,
  any, concat,
}
use nftblock.Prelude.Results.{Result, ok, err}
use nftblock.Prelude.Effects.{Eff, after, Done, after-Done, Done-mono, Done-all}
use nftblock.Blocklist.{AddressInterval, AddressPrefix, interval_prefixes}
use nftblock.Blocklist.Stream.Replay.{Chunks, replay, and_then}
use nftblock.Xdp.Maps.{Key, MapLib, MapLaws, Kernel}
use nftblock.Xdp.{
  XdpConfig, StageError, v4_of, v6_of, v4_mut, v6_mut, Staging, stage_prefix, inserted_v4,
  inserted_v6, stage_prefixes, stage_chunk,
}
use nftblock.Xdp.Filled.{v4_mut-Done, v6_mut-Done}

abbrev pub v4_keys : List AddressPrefix → List Key
v4_keys [] = []
v4_keys (AddressPrefix.v4 a n ∷ ps) = record { prefix_len = n; address = a } ∷ v4_keys ps
v4_keys (AddressPrefix.v6 a n ∷ ps) = v4_keys ps

abbrev pub v6_keys : List AddressPrefix → List Key
v6_keys [] = []
v6_keys (AddressPrefix.v4 a n ∷ ps) = v6_keys ps
v6_keys (AddressPrefix.v6 a n ∷ ps) = record { prefix_len = n; address = a } ∷ v6_keys ps

abbrev pub prefixes_of : List AddressInterval → List AddressPrefix
prefixes_of [] = []
prefixes_of (i ∷ is) = interval_prefixes i ++ prefixes_of is

prefixes_of-append :
    (is js : List AddressInterval) → prefixes_of (is ++ js) ≡ prefixes_of is ++ prefixes_of js
prefixes_of-append [] js = refl
prefixes_of-append (i ∷ is) js = rw (prefixes_of-append is js, append_assoc)

pub v4_keys-append :
    (q : Key → Bool) (ps rs : List AddressPrefix)
    → any q (v4_keys (ps ++ rs)) ≡ (any q (v4_keys ps) || any q (v4_keys rs))
v4_keys-append q [] rs = refl
v4_keys-append q (AddressPrefix.v4 a n ∷ ps) rs = ground (arith, v4_keys-append q ps rs)
v4_keys-append q (AddressPrefix.v6 a n ∷ ps) rs = v4_keys-append q ps rs

pub v6_keys-append :
    (q : Key → Bool) (ps rs : List AddressPrefix)
    → any q (v6_keys (ps ++ rs)) ≡ (any q (v6_keys ps) || any q (v6_keys rs))
v6_keys-append q [] rs = refl
v6_keys-append q (AddressPrefix.v4 a n ∷ ps) rs = v6_keys-append q ps rs
v6_keys-append q (AddressPrefix.v6 a n ∷ ps) rs = ground (arith, v6_keys-append q ps rs)

module _ (lib : MapLib) (c : Bool) where
  -- The maps of the slot have the keys of the prefixes, and those that they had.
  pub record Adds (ps : List AddressPrefix) (k k' : Kernel lib) : Type 0 where
    pub v4 :
        (q : Key → Bool)
        → any q (lib.contents (v4_of lib c k'))
          ≡ (any q (v4_keys ps) || any q (lib.contents (v4_of lib c k)))
    pub v6 :
        (q : Key → Bool)
        → any q (lib.contents (v6_of lib c k'))
          ≡ (any q (v6_keys ps) || any q (lib.contents (v6_of lib c k)))

  Adds-nothing : (k : Kernel lib) → Adds [] k k
  Adds-nothing k = record { v4 = λ q. refl; v6 = λ q. refl }

  Adds-append :
      (ps rs : List AddressPrefix) (k l m : Kernel lib)
      → Adds ps k l
      → Adds rs l m
      → Adds (ps ++ rs) k m
  Adds-append ps rs k l m g h = record {
    v4 = λ q. ground (arith, g.v4 q, h.v4 q, v4_keys-append q ps rs);
    v6 = λ q. ground (arith, g.v6 q, h.v6 q, v6_keys-append q ps rs);
  }

  module _ (laws : MapLaws lib) (config : XdpConfig) (slot : ℕ) (this : (slot == 0) ≡ c) where
    abbrev AddsTo : Staging lib → List AddressPrefix → Staging lib → Type 0
    AddsTo s ps t = Adds ps s.kernel t.kernel

    inserted_v4-Done :
        (s : Staging lib) (Q : Kernel lib → Type 0)
        (r : Result lib.MapError (Unit {0}) × Kernel lib)
        → Done (λ _. Q) r
        → Done (λ _ t. Q t.kernel) (inserted_v4 lib config slot s r)
    unfolding inserted_v4
    inserted_v4-Done s Q (ok u, k) h = h
    inserted_v4-Done s Q (err e, k) h = tt

    inserted_v6-Done :
        (s : Staging lib) (Q : Kernel lib → Type 0)
        (r : Result lib.MapError (Unit {0}) × Kernel lib)
        → Done (λ _. Q) r
        → Done (λ _ t. Q t.kernel) (inserted_v6 lib config slot s r)
    unfolding inserted_v6
    inserted_v6-Done s Q (ok u, k) h = h
    inserted_v6-Done s Q (err e, k) h = tt

    unless_full :
        {E : Type 0} (b : Bool) (e : E) (s : Staging lib) (P : Staging lib → Type 0)
        (r : Result E (Unit {0}) × Staging lib)
        → Done (λ _. P) r
        → Done (λ _. P) (if b then (err e, s) else r)
    unless_full true e s P r h = tt
    unless_full false e s P r h = h

    insert-Done :
        (key : Key) (t : lib.Trie)
        → Done
            (λ _ t'. (q : Key → Bool) → any q (lib.contents t') ≡ (q key || any q (lib.contents t)))
            (lib.insert key 1 t)
    insert-Done key t =
        Done-all (λ q _ t'. any q (lib.contents t') ≡ (q key || any q (lib.contents t)))
          (lib.insert key 1 t) (laws.any-insert key 1 t)

    stage_prefix-Done :
        (p : AddressPrefix) (s : Staging lib)
        → Done (λ _. AddsTo s (p ∷ [])) (stage_prefix lib config slot p s)
    unfolding stage_prefix
    stage_prefix-Done (AddressPrefix.v4 a n) s =
        let key : Key = record { prefix_len = n; address = a } in
        let New : lib.Trie → Type 0 = λ t.
          (q : Key → Bool)
          → any q (lib.contents t) ≡ (q key || any q (lib.contents (v4_of lib c s.kernel))) in
        let run = v4_mut lib slot (lib.insert key 1) s.kernel in
        unless_full (leb config.ipv4_max_entries s.ipv4)
          (StageError.ipv4_capacity config.ipv4_max_entries) s
          (AddsTo s (AddressPrefix.v4 a n ∷ [])) (inserted_v4 lib config slot s run)
          (inserted_v4-Done s (Adds (AddressPrefix.v4 a n ∷ []) s.kernel) run (
            Done-mono (λ _ k. New (v4_of lib c k) × (v6_of lib c k ≡ v6_of lib c s.kernel))
              (λ _. Adds (AddressPrefix.v4 a n ∷ []) s.kernel) run
              (λ _ k (h, e). record {
                v4 = λ q. ground (arith, h q);
                v6 = λ q. ap (λ t. any q (lib.contents t)) e;
              })
              (v4_mut-Done lib c slot this New (lib.insert key 1) s.kernel
                (insert-Done key (v4_of lib c s.kernel)))))
    stage_prefix-Done (AddressPrefix.v6 a n) s =
        let key : Key = record { prefix_len = n; address = a } in
        let New : lib.Trie → Type 0 = λ t.
          (q : Key → Bool)
          → any q (lib.contents t) ≡ (q key || any q (lib.contents (v6_of lib c s.kernel))) in
        let run = v6_mut lib slot (lib.insert key 1) s.kernel in
        unless_full (leb config.ipv6_max_entries s.ipv6)
          (StageError.ipv6_capacity config.ipv6_max_entries) s
          (AddsTo s (AddressPrefix.v6 a n ∷ [])) (inserted_v6 lib config slot s run)
          (inserted_v6-Done s (Adds (AddressPrefix.v6 a n ∷ []) s.kernel) run (
            Done-mono (λ _ k. New (v6_of lib c k) × (v4_of lib c k ≡ v4_of lib c s.kernel))
              (λ _. Adds (AddressPrefix.v6 a n ∷ []) s.kernel) run
              (λ _ k (h, e). record {
                v6 = λ q. ground (arith, h q);
                v4 = λ q. ap (λ t. any q (lib.contents t)) e;
              })
              (v6_mut-Done lib c slot this New (lib.insert key 1) s.kernel
                (insert-Done key (v6_of lib c s.kernel)))))

    -- One operation, and another behind it.
    then-Done :
        (ps rs : List AddressPrefix) (s : Staging lib)
        (r : Result (StageError lib.MapError) (Unit {0}) × Staging lib)
        (f : Eff (Staging lib) (StageError lib.MapError) (Unit {0}))
        → Done (λ _. AddsTo s ps) r
        → ((t : Staging lib) → Done (λ _. AddsTo t rs) (f t))
        → Done (λ _. AddsTo s (ps ++ rs)) (after r (λ _. f))
    then-Done ps rs s r f h g =
        after-Done (λ _. AddsTo s ps) (λ _. AddsTo s (ps ++ rs)) r _ h
          λ _ t a.
            Done-mono (λ _. AddsTo t rs) (λ _. AddsTo s (ps ++ rs)) (f t)
              (λ _ u b. Adds-append ps rs s.kernel t.kernel u.kernel a b) (g t)

    stage_prefixes-Done :
        (ps : List AddressPrefix) (s : Staging lib)
        → Done (λ _. AddsTo s ps) (stage_prefixes lib config slot ps s)
    unfolding stage_prefixes
    stage_prefixes-Done [] s = Adds-nothing s.kernel
    stage_prefixes-Done (p ∷ ps) s =
        then-Done (p ∷ []) ps s (stage_prefix lib config slot p s)
          (stage_prefixes lib config slot ps) (stage_prefix-Done p s) (stage_prefixes-Done ps)

    stage_chunk-Done :
        (is : List AddressInterval) (s : Staging lib)
        → Done (λ _. AddsTo s (prefixes_of is)) (stage_chunk lib config slot is s)
    unfolding stage_chunk
    stage_chunk-Done [] s = Adds-nothing s.kernel
    stage_chunk-Done (i ∷ is) s =
        then-Done (interval_prefixes i) (prefixes_of is) s
          (stage_prefixes lib config slot (interval_prefixes i) s) (stage_chunk lib config slot is)
          (stage_prefixes-Done (interval_prefixes i) s) (stage_chunk-Done is)

    and_then-Done :
        (ps rs : List AddressPrefix) (s : Staging lib)
        (r : Result (StageError lib.MapError) (Unit {0}) × Staging lib)
        (f : Eff (Staging lib) (StageError lib.MapError) (Unit {0}))
        → Done (λ _. AddsTo s ps) r
        → ((t : Staging lib) → Done (λ _. AddsTo t rs) (f t))
        → Done (λ _. AddsTo s (ps ++ rs)) (and_then r f)
    and_then-Done ps rs s (ok u, t) f h g =
        Done-mono (λ _. AddsTo t rs) (λ _. AddsTo s (ps ++ rs)) (f t)
          (λ _ u b. Adds-append ps rs s.kernel t.kernel u.kernel h b) (g t)
    and_then-Done ps rs s (err e, t) f h g = tt

    pub replay-Done :
        (log : Chunks) (s : Staging lib)
        → Done
            (λ _ t. Adds (prefixes_of (concat log)) s.kernel t.kernel)
            (replay (stage_chunk lib config slot) log s)
    unfolding replay
    replay-Done [] s = Adds-nothing s.kernel
    replay-Done (is ∷ log) s = rw (prefixes_of-append is (concat log)) (
        and_then-Done (prefixes_of is) (prefixes_of (concat log)) s
          (stage_chunk lib config slot is s) (replay (stage_chunk lib config slot) log)
          (stage_chunk-Done is s) (replay-Done log))
