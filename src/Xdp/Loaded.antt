-- ===== src/Xdp/Loaded.antt =====
-- A reload (src/xdp.rs) that succeeds: the packet filter drops what the list has.
use nftblock.Prelude.{
  ℕ, ◌-◌, ◌^◌, ◌<◌, ◌≡◌, refl, ap, ◌∙◌, subst, Bool, true, false, not, ◌||◌, Option, some, List, [],
  ◌∷◌, ◌==◌, arith, any, concat,
}
use nftblock.Prelude.Results.{Result, ok, err}
use nftblock.Prelude.Effects.{after, map_err, with_err, Done, after-Done, Done-mono}
use nftblock.Word.{wrapping_sub}
use nftblock.Files.{FileLib}
use nftblock.Blocklist.Stream.Net.{IpNetLib, IpNetLaws}
use nftblock.Blocklist.Stream.Control.{StreamError, StreamStats}
use nftblock.Blocklist.Stream.{stream_chunks}
use nftblock.Blocklist.Stream.Replay.{Chunks, collect, replay, play_on}
use nftblock.Blocklist.Stream.Replay.Parts.{stream_chunks-play}
use nftblock.Blocklist.Stream.Order.{position, nets, nets_cover}
use nftblock.Blocklist.Stream.Results.{stream_chunks-IsStreamed, IsStreamed}
use nftblock.Filter.{Control, XdpContext, slot, bytes_from, cidrwall, verdict_of}
use nftblock.Filter.Frame.{Source, source, judge}
use nftblock.Filter.Decision.{cidrwall_lem}
use nftblock.Xdp.Maps.{MapLib, MapLaws, Kernel, maps_of, prefix_of, number, Octets}
use nftblock.Xdp.{
  XdpError, XdpConfig, StageError, Staging, start, v4_of, v6_of, layout_version, slot_count,
  clear_slot, stage_chunk, Error, Lines, in_kernel, open_lines, staged, stage, prepare, set_control,
  get_control, switch_to, reload,
}
use nftblock.Xdp.Untouched.{Untouched, clear_slot-Untouched}
use nftblock.Xdp.Rejected.{
  other_slot, entry_slot, get_control-Done, v4_of-control, v6_of-control, look_up_ipv4-maps_of,
  look_up_ipv6-maps_of,
}
use nftblock.Xdp.Filled.{Cleared, clear_slot-Done}
use nftblock.Xdp.Staged.{Adds, prefixes_of, v4_keys, v6_keys, replay-Done}
use nftblock.Xdp.Covered.{v4_keys-covers, v6_keys-covers}

number-lt : (a : List ℕ) → Octets 4 a → number a < 2 ^ 32
number-lt [] (h, _) = omega (arith, h)
number-lt (b ∷ []) (h, _) = omega (arith, h)
number-lt (b ∷ c ∷ []) (h, _) = omega (arith, h)
number-lt (b ∷ c ∷ d ∷ []) (h, _) = omega (arith, h)
number-lt (b ∷ c ∷ d ∷ e ∷ []) (_, (p, (q, (r, (s, _))))) = omega (arith, p, q, r, s)
number-lt (b ∷ c ∷ d ∷ e ∷ f ∷ a) (h, _) = let never : ⊥ = omega (arith, h) in elim never [ ]

with_err-Done :
    {S E F A : Type 0} (P : A → S → Type 0) (f : E → F) (r : Result E A × S)
    → Done P r
    → Done P (with_err f r)
with_err-Done P f (ok a, s) h = h
with_err-Done P f (err e, s) h = tt

module _ (lib : MapLib) (net : IpNetLib) (files : FileLib) (c : Bool) where
  -- The maps of the slot have a prefix of an address if the lines have a network with it.
  pub record Loaded (lines : Lines lib net files) (k : Kernel lib) : Type 0 where
    pub v4 :
        (x : ℕ)
        → x < 2 ^ 32
        → any (prefix_of 32 x) (lib.contents (v4_of lib c k))
          ≡ nets_cover net (position false x) (nets net lines)
    pub v6 :
        (x : ℕ)
        → any (prefix_of 128 x) (lib.contents (v6_of lib c k))
          ≡ nets_cover net (position true x) (nets net lines)

  -- The file that is configured, loaded.
  abbrev pub Filled : Option files.FilePath → Kernel lib → Type 0
  Filled path k =
      (lines : Lines lib net files) × (open_lines lib net files path ≡ ok lines) × Loaded lines k

  Loaded-same :
      (lines : Lines lib net files) (k k' : Kernel lib)
      → v4_of lib c k' ≡ v4_of lib c k
      → v6_of lib c k' ≡ v6_of lib c k
      → Loaded lines k
      → Loaded lines k'
  Loaded-same lines k k' e f h = record {
    v4 = λ x b. ap (λ t. any (prefix_of 32 x) (lib.contents t)) e ∙ h.v4 x b;
    v6 = λ x. ap (λ t. any (prefix_of 128 x) (lib.contents t)) f ∙ h.v6 x;
  }

  module _ (laws : MapLaws lib) (net_laws : IpNetLaws net) (config : XdpConfig)
      (pos : 0 < config.populate_batch_elements) where
    Adds-Loaded :
        (lines : Lines lib net files) (stats : StreamStats) (log : Chunks) (k k' : Kernel lib)
        → Cleared lib laws c k
        → Adds lib c (prefixes_of (concat log)) k k'
        → IsStreamed net config.populate_batch_elements lines stats log
        → Loaded lines k'
    Adds-Loaded lines stats log k k' e a s = record {
      v4 = λ x b.
          a.v4 (prefix_of 32 x)
          ∙ ap (λ o. any (prefix_of 32 x) (v4_keys (prefixes_of (concat log))) || o)
              (e.v4 (prefix_of 32 x))
          ∙ ground (
            arith,
            v4_keys-covers x 0 s.stop (concat log) b s.chain,
            s.covers_all (position false x),
          );
      v6 = λ x.
          a.v6 (prefix_of 128 x)
          ∙ ap (λ o. any (prefix_of 128 x) (v6_keys (prefixes_of (concat log))) || o)
              (e.v6 (prefix_of 128 x))
          ∙ ground (
            arith,
            v6_keys-covers x 0 s.stop (concat log) s.chain,
            s.covers_all (position true x),
          );
    }

    module _ (other : ℕ) (this : (other == 0) ≡ c) where
      abbrev Parsed : Type 0
      Parsed =
          Result (StreamError files.IoError net.AddrParseError (StageError lib.MapError))
            StreamStats

      played-Done :
          (lines : Lines lib net files) (k : Kernel lib) (r : Parsed) (log : Chunks)
          (t : Result (StageError lib.MapError) (Unit {0}) × Staging lib)
          → Cleared lib laws c k
          → stream_chunks net {E = StageError lib.MapError} collect config.populate_batch_elements
              lines []
            ≡ (r, log)
          → Done (λ _ s. Adds lib c (prefixes_of (concat log)) k s.kernel) t
          → Done (λ _. Loaded lines) (staged lib net files other (play_on r t))
      unfolding staged
      played-Done lines k (ok stats) log (ok u, s) e q a =
          Adds-Loaded lines stats log k s.kernel e a (
            stream_chunks-IsStreamed net net_laws files.IoError (StageError lib.MapError)
              config.populate_batch_elements lines stats log pos q)
      played-Done lines k (err x) log (ok u, s) e q a = tt
      played-Done lines k r log (err x, s) e q a = tt

      stage-Done :
          (lines : Lines lib net files) (k : Kernel lib)
          → Cleared lib laws c k
          → Done (λ _. Loaded lines) (stage lib net files config other lines k)
      unfolding stage
      stage-Done lines k e =
          let emit = stage_chunk lib config other in
          let recorded =
            stream_chunks net {E = StageError lib.MapError} collect config.populate_batch_elements
              lines [] in
          rw (stream_chunks-play net emit config.populate_batch_elements lines (start lib k)) (
            played-Done lines k recorded.0 recorded.1 (replay emit recorded.1 (start lib k)) e refl
              (replay-Done lib c laws config other this recorded.1 (start lib k)))

      opened-Done :
          (path : Option files.FilePath) (k : Kernel lib)
          (r : Result (Error lib net files) (Lines lib net files))
          → open_lines lib net files path ≡ r
          → Cleared lib laws c k
          → Done (λ _. Filled path) (after (r, k) (stage lib net files config other))
      opened-Done path k (ok lines) q e =
          Done-mono (λ _. Loaded lines) (λ _. Filled path)
            (stage lib net files config other lines k) (λ _ k' h. (lines, q, h))
            (stage-Done lines k e)
      opened-Done path k (err x) q e = tt

      prepare-Done :
          (path : Option files.FilePath) (k : Kernel lib)
          → Done (λ _. Filled path) (prepare lib net files config path other k)
      unfolding prepare
      prepare-Done path k =
          after-Done (λ _. Cleared lib laws c) (λ _. Filled path)
            (in_kernel lib net files (clear_slot lib other) k) _
            (with_err-Done (λ _. Cleared lib laws c) XdpError.map_failed (clear_slot lib other k)
              (clear_slot-Done lib laws c other k this))
            λ _ k' e. opened-Done path k' (open_lines lib net files path) refl e

  -- The switch to the slot leaves its maps.
  record IsActive (active : ℕ) (path : Option files.FilePath) (k : Kernel lib) : Type 0 where
    pub slot : slot (maps_of lib k) ≡ active
    pub filled : Filled path k

  Filled-same :
      (path : Option files.FilePath) (k k' : Kernel lib)
      → v4_of lib c k' ≡ v4_of lib c k
      → v6_of lib c k' ≡ v6_of lib c k
      → Filled path k
      → Filled path k'
  Filled-same path k k' e f (lines, q, h) = (lines, q, Loaded-same lines k k' e f h)

  module _ (laws : MapLaws lib) where
    set_control-Done :
        (n : ℕ) (path : Option files.FilePath) (k : Kernel lib)
        → Filled path k
        → Done (λ _. IsActive n path) (set_control lib net files n k)
    unfolding set_control
    set_control-Done n path k h = written _ refl
      where
        written :
            (r : Result lib.MapError (Unit {0}) × lib.ControlMap)
            → lib.set_control
                (record { layout_version = layout_version; active_slot = n })
                k.control
              ≡ r
            → Done
                (λ _. IsActive n path)
                (
                  map_err {F = Error lib net files} XdpError.map_failed r.0,
                  record k { control = r.1 },
                )
        written (ok u, m) e = record {
          slot = ap entry_slot (laws.set-control k.control m _ e);
          filled = Filled-same path k _ (v4_of-control lib c k m) (v6_of-control lib c k m) h;
        }
        written (err x, m) e = tt

    switch_to-Done :
        (active inactive : ℕ) (path : Option files.FilePath) (k : Kernel lib)
        → (active == 0) ≡ not c
        → Filled path k
        → Done (λ _. IsActive inactive path) (switch_to lib net files active inactive k)
    unfolding switch_to
    switch_to-Done active inactive path k o h =
        after-Done (λ _. IsActive inactive path) (λ _. IsActive inactive path)
          (set_control lib net files inactive k) _ (set_control-Done inactive path k h)
          λ _ k' a.
            let u : Untouched lib c k' (clear_slot lib active k').1 =
              clear_slot-Untouched lib c active o k' in
            record {
              slot = ap (λ m. entry_slot (lib.control_entry m)) u.control ∙ a.slot;
              filled = Filled-same path k' _ u.v4 u.v6 a.filled;
            }

module _ (lib : MapLib) (laws : MapLaws lib) (net : IpNetLib) (net_laws : IpNetLaws net)
    (files : FileLib) (config : XdpConfig) (pos : 0 < config.populate_batch_elements) where
  -- The slot that is active after a reload is filled.
  abbrev Active : Option files.FilePath → Kernel lib → Type 0
  Active path k = (b : Bool) × ((slot (maps_of lib k) == 0) ≡ b) × Filled lib net files b path k

  reload-Done :
      (path : Option files.FilePath) (k : Kernel lib)
      → slot (maps_of lib k) < slot_count
      → Done (λ _. Active path) (reload lib net files config path k)
  unfolding reload
  reload-Done path k few =
      after-Done (λ (value : Control) s. (s ≡ k) × (slot (maps_of lib k) ≡ value.active_slot))
        (λ _. Active path) (get_control lib net files k) _ (get_control-Done lib laws net files k)
        λ value s (_, a).
          let b : Bool = not (value.active_slot == 0) in
          let inactive : ℕ = wrapping_sub 32 1 value.active_slot in
          let this : (inactive == 0) ≡ b =
            other_slot value.active_slot (subst (λ n. n < slot_count) a few) in
          after-Done (λ _. Filled lib net files b path) (λ _. Active path)
            (prepare lib net files config path inactive s) _
            (prepare-Done lib net files b laws net_laws config pos inactive this path s)
            λ _ t h.
              Done-mono (λ _. IsActive lib net files b inactive path) (λ _. Active path)
                (switch_to lib net files value.active_slot inactive t)
                (λ _ u i. (b, ap (λ n. n == 0) i.slot ∙ this, i.filled))
                (switch_to-Done lib net files b laws value.active_slot inactive path t
                  (twice (value.active_slot == 0)) h)
    where
      twice : (b : Bool) → b ≡ not (not b)
      twice true = refl
      twice false = refl

-- A source address of the right length, in octets, and whether the lines have a network with it.
abbrev pub IsAddress : Source → Type 0
IsAddress (Source.ipv4 a) = Octets 4 a
IsAddress (Source.ipv6 a) = Octets 16 a

abbrev pub listed :
    (lib : MapLib) (net : IpNetLib) (files : FileLib) → Lines lib net files → Source → Bool
listed lib net files lines (Source.ipv4 a) =
    nets_cover net (position false (number a)) (nets net lines)
listed lib net files lines (Source.ipv6 a) =
    nets_cover net (position true (number a)) (nets net lines)

module _ (lib : MapLib) (laws : MapLaws lib) (net : IpNetLib) (files : FileLib) where
  judge-Loaded :
      (b : Bool) (lines : Lines lib net files) (k : Kernel lib) (a : Source)
      → (slot (maps_of lib k) == 0) ≡ b
      → Loaded lib net files b lines k
      → IsAddress a
      → judge (maps_of lib k) (some a) ≡ verdict_of (listed lib net files lines a)
  judge-Loaded b lines k (Source.ipv4 a) e h o = ap verdict_of (
      look_up_ipv4-maps_of lib k a b e
      ∙ laws.look_up_ipv4 (v4_of lib b k) a o
      ∙ h.v4 (number a) (number-lt a o))
  judge-Loaded b lines k (Source.ipv6 a) e h o =
      ap verdict_of
        (look_up_ipv6-maps_of lib k a b e ∙ laws.look_up_ipv6 (v6_of lib b k) a o ∙ h.v6 (number a))

  -- When a reload succeeds, the control entry named one of the two slots, and the chunk size is
  -- positive, the file that is configured can be opened, and on the maps that the reload leaves the
  -- packet filter drops a packet whose source address has four or sixteen octets exactly when one of
  -- the networks in the file has that address.
  pub cidrwall-reload :
      (net_laws : IpNetLaws net) (config : XdpConfig) (path : Option files.FilePath)
      (k k' : Kernel lib) (ctx : XdpContext) (a : Source)
      → 0 < config.populate_batch_elements
      → slot (maps_of lib k) < slot_count
      → reload lib net files config path k ≡ (ok tt, k')
      → source (bytes_from ctx.byte ctx.data_start (ctx.data_end - ctx.data_start)) ≡ some a
      → IsAddress a
      → (lines : Lines lib net files) × (open_lines lib net files path ≡ ok lines)
        × (cidrwall ctx (maps_of lib k') ≡ verdict_of (listed lib net files lines a))
  cidrwall-reload net_laws config path k k' ctx a pos few r s o =
      let (b, e, (lines, q, h)) =
        subst (Done (λ _. Active lib laws net net_laws files config pos path)) r
          (reload-Done lib laws net net_laws files config pos path k few) in
      (
        lines,
        q,
        cidrwall_lem ctx (maps_of lib k')
            ∙ ap (judge (maps_of lib k')) s
            ∙ judge-Loaded b lines k' a e h o,
      )
