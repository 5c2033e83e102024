-- ===== src/Xdp/Untouched.antt =====
-- Until the switch, a reload (src/xdp.rs) changes neither the control map nor the maps of the active
-- slot.
use nftblock.Prelude.{
  ℕ, ◌≡◌, refl, ◌∙◌, Bool, true, false, not, Option, List, [], ◌∷◌, leb, ◌==◌, Bool-cases, inl, inr,
}
use nftblock.Prelude.Results.{Result, ok, err}
use nftblock.Prelude.Effects.{Eff, lift, Keeps, >>=-Keeps}
use nftblock.Blocklist.{AddressInterval, AddressPrefix, interval_prefixes}
use nftblock.Blocklist.Stream.Net.{IpNetLib}
use nftblock.Blocklist.Stream.Control.{StreamError, StreamStats}
use nftblock.Blocklist.Stream.{stream_chunks}
use nftblock.Blocklist.Stream.Replay.Keeping.{stream_chunks-Keeps}
use nftblock.Xdp.Maps.{MapLib, Kernel}
use nftblock.Xdp.{
  XdpConfig, StageError, v4_of, v6_of, set_v4, set_v6, v4_mut, v6_mut, clear_trie, clear_slot,
  Staging, start, stage_prefix, inserted_v4, inserted_v6, stage_prefixes, stage_chunk, Lines,
  in_kernel, open_lines, staged, stage, prepare,
}
use nftblock.Files.{FileLib}

module _ (lib : MapLib) (b : Bool) where
  -- The control map and the maps of slot `b` are the same.
  pub record Untouched (k k' : Kernel lib) : Type 0 where
    pub control : k'.control ≡ k.control
    pub v4 : v4_of lib b k' ≡ v4_of lib b k
    pub v6 : v6_of lib b k' ≡ v6_of lib b k

  pub Untouched-refl : (k : Kernel lib) → Untouched k k
  Untouched-refl k = record { control = refl; v4 = refl; v6 = refl }

  pub Untouched-trans : (k l m : Kernel lib) → Untouched k l → Untouched l m → Untouched k m
  Untouched-trans k l m p q = record {
    control = q.control ∙ p.control;
    v4 = q.v4 ∙ p.v4;
    v6 = q.v6 ∙ p.v6;
  }

set_v4-Untouched :
    (lib : MapLib) (b : Bool) (k : Kernel lib) (t : lib.Trie)
    → Untouched lib b k (set_v4 lib (not b) k t)
unfolding set_v4 v4_of v6_of
set_v4-Untouched lib true k t = record { control = refl; v4 = refl; v6 = refl }
set_v4-Untouched lib false k t = record { control = refl; v4 = refl; v6 = refl }

set_v6-Untouched :
    (lib : MapLib) (b : Bool) (k : Kernel lib) (t : lib.Trie)
    → Untouched lib b k (set_v6 lib (not b) k t)
unfolding set_v6 v4_of v6_of
set_v6-Untouched lib true k t = record { control = refl; v4 = refl; v6 = refl }
set_v6-Untouched lib false k t = record { control = refl; v4 = refl; v6 = refl }

-- Slot `slot` is not slot `b`.
module _ (lib : MapLib) (b : Bool) (slot : ℕ) (other : (slot == 0) ≡ not b) where
  v4_mut-Untouched :
      {A : Type 0} (m : Eff lib.Trie lib.MapError A) → Keeps (Untouched lib b) (v4_mut lib slot m)
  unfolding v4_mut
  v4_mut-Untouched m k = rw other (set_v4-Untouched lib b k _)

  v6_mut-Untouched :
      {A : Type 0} (m : Eff lib.Trie lib.MapError A) → Keeps (Untouched lib b) (v6_mut lib slot m)
  unfolding v6_mut
  v6_mut-Untouched m k = rw other (set_v6-Untouched lib b k _)

  pub clear_slot-Untouched : Keeps (Untouched lib b) (clear_slot lib slot)
  unfolding clear_slot
  clear_slot-Untouched =
      >>=-Keeps (Untouched lib b) (Untouched-trans lib b) (v4_mut lib slot (clear_trie lib)) _
        (v4_mut-Untouched (clear_trie lib)) (λ _. v6_mut-Untouched (clear_trie lib))

  -- The same of what the callback owns.
  abbrev Behind : Staging lib → Staging lib → Type 0
  Behind s s' = Untouched lib b s.kernel s'.kernel

  module _ (config : XdpConfig) where
    inserted_v4-Behind :
        (s : Staging lib) (r : Result lib.MapError (Unit {0}) × Kernel lib)
        → Untouched lib b s.kernel r.1
        → Behind s (inserted_v4 lib config slot s r).1
    unfolding inserted_v4
    inserted_v4-Behind s (ok u, k) h = h
    inserted_v4-Behind s (err e, k) h = h

    inserted_v6-Behind :
        (s : Staging lib) (r : Result lib.MapError (Unit {0}) × Kernel lib)
        → Untouched lib b s.kernel r.1
        → Behind s (inserted_v6 lib config slot s r).1
    unfolding inserted_v6
    inserted_v6-Behind s (ok u, k) h = h
    inserted_v6-Behind s (err e, k) h = h

    stage_prefix-Behind : (p : AddressPrefix) → Keeps Behind (stage_prefix lib config slot p)
    unfolding stage_prefix
    stage_prefix-Behind (AddressPrefix.v4 a n) s =
        elim (Bool-cases (leb config.ipv4_max_entries s.ipv4)) [
          | inl e ↦ rw e (Untouched-refl lib b s.kernel)
          | inr e ↦ rw e (inserted_v4-Behind s _ (v4_mut-Untouched _ s.kernel))
        ]
    stage_prefix-Behind (AddressPrefix.v6 a n) s =
        elim (Bool-cases (leb config.ipv6_max_entries s.ipv6)) [
          | inl e ↦ rw e (Untouched-refl lib b s.kernel)
          | inr e ↦ rw e (inserted_v6-Behind s _ (v6_mut-Untouched _ s.kernel))
        ]

    stage_prefixes-Behind :
        (ps : List AddressPrefix) → Keeps Behind (stage_prefixes lib config slot ps)
    unfolding stage_prefixes
    stage_prefixes-Behind [] s = Untouched-refl lib b s.kernel
    stage_prefixes-Behind (p ∷ ps) s =
        >>=-Keeps Behind (λ s t u. Untouched-trans lib b s.kernel t.kernel u.kernel)
          (stage_prefix lib config slot p) _ (stage_prefix-Behind p) (λ _. stage_prefixes-Behind ps)
          s

    stage_chunk-Behind : (is : List AddressInterval) → Keeps Behind (stage_chunk lib config slot is)
    unfolding stage_chunk
    stage_chunk-Behind [] s = Untouched-refl lib b s.kernel
    stage_chunk-Behind (i ∷ is) s =
        >>=-Keeps Behind (λ s t u. Untouched-trans lib b s.kernel t.kernel u.kernel)
          (stage_prefixes lib config slot (interval_prefixes i)) _
          (stage_prefixes-Behind (interval_prefixes i)) (λ _. stage_chunk-Behind is) s

    module _ (net : IpNetLib) (files : FileLib) where
      streamed-Behind :
          (lines : Lines lib net files) (s : Staging lib)
          → Behind s
              (stream_chunks net
                (stage_chunk lib config slot)
                config.populate_batch_elements
                lines
                s).1
      streamed-Behind lines s =
          stream_chunks-Keeps Behind (λ s. Untouched-refl lib b s.kernel)
            (λ s t u. Untouched-trans lib b s.kernel t.kernel u.kernel)
            (stage_chunk lib config slot) stage_chunk-Behind net config.populate_batch_elements
            lines s

      staged-Untouched :
          (k : Kernel lib)
          (r : Result
              (StreamError files.IoError net.AddrParseError (StageError lib.MapError))
              StreamStats
            × Staging lib)
          → Untouched lib b k r.1.kernel
          → Untouched lib b k (staged lib net files slot r).1
      unfolding staged
      staged-Untouched k (ok stats, s) h = h
      staged-Untouched k (err e, s) h =
          Untouched-trans lib b k s.kernel _ h (clear_slot-Untouched s.kernel)

      -- All before the switch.
      pub prepare-Untouched :
          (path : Option files.FilePath)
          → Keeps (Untouched lib b) (prepare lib net files config path slot)
      unfolding prepare stage
      prepare-Untouched path =
          >>=-Keeps (Untouched lib b) (Untouched-trans lib b)
            (in_kernel lib net files (clear_slot lib slot)) _ clear_slot-Untouched
            λ _.
              >>=-Keeps (Untouched lib b) (Untouched-trans lib b)
                (lift (open_lines lib net files path)) _ (Untouched-refl lib b)
                λ lines k. staged-Untouched k _ (streamed-Behind lines (start lib k))
