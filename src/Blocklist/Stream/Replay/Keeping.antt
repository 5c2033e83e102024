-- ===== src/Blocklist/Stream/Replay/Keeping.antt =====
-- What each call of the callback keeps, `stream_chunks` keeps (src/blocklist.rs).
use nftblock.Prelude.{ℕ, List, [], ◌∷◌}
use nftblock.Prelude.Results.{Result, ok, err}
use nftblock.Prelude.Effects.{Keeps}
use nftblock.Text.{Text}
use nftblock.Blocklist.{AddressInterval}
use nftblock.Blocklist.Stream.Net.{IpNetLib}
use nftblock.Blocklist.Stream.Control.{StreamError, Emit}
use nftblock.Blocklist.Stream.{stream_chunks}
use nftblock.Blocklist.Stream.Replay.{Chunks, collect, replay, play_on, and_then}
use nftblock.Blocklist.Stream.Replay.Parts.{stream_chunks-play}

module _ {E S : Type 0} (R : S → S → Type 0) (R-refl : (s : S) → R s s)
    (R-trans : (s t u : S) → R s t → R t u → R s u) (emit : Emit E S)
    (emit-Keeps : (chunk : List AddressInterval) → Keeps R (emit chunk)) where
  and_then-Keeps :
      (s : S) (o : Result E (Unit {0}) × S) (f : S → Result E (Unit {0}) × S)
      → R s o.1
      → ((t : S) → R t (f t).1)
      → R s (and_then o f).1
  and_then-Keeps s (ok u, t) f h k = R-trans s t _ h (k t)
  and_then-Keeps s (err e, t) f h k = h

  replay-Keeps : (cs : Chunks) → Keeps R (replay emit cs)
  unfolding replay
  replay-Keeps [] s = R-refl s
  replay-Keeps (c ∷ cs) s =
      and_then-Keeps s (emit c s) (replay emit cs) (emit-Keeps c s) (replay-Keeps cs)

  module _ (lib : IpNetLib) {I : Type 0} where
    play_on-Keeps :
        {B : Type 0} (s : S) (r : Result (StreamError I lib.AddrParseError E) B)
        (t : Result E (Unit {0}) × S)
        → R s t.1
        → R s (play_on r t).1
    play_on-Keeps s r (ok u, t) h = h
    play_on-Keeps s r (err e, t) h = h

    pub stream_chunks-Keeps :
        (limit : ℕ) (lines : List (Result I Text)) → Keeps R (stream_chunks lib emit limit lines)
    stream_chunks-Keeps limit lines s =
        let recorded = stream_chunks lib {E = E} collect limit lines [] in
        rw (stream_chunks-play lib emit limit lines s)
          (play_on-Keeps s recorded.0 (replay emit recorded.1 s) (replay-Keeps recorded.1 s))
