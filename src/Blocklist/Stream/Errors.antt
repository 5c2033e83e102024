-- ===== src/Blocklist/Stream/Errors.antt =====
-- Which error `stream_chunks` (src/blocklist.rs) returns, with any callback.
use nftblock.Prelude.{ℕ, ◌<◌, ◌≡◌, refl, ap, ◌∙◌, false, Option, some, List, []}
use nftblock.Text.{Text}
use nftblock.Blocklist.Stream.Control.{Result, ok, err, Emit, StreamError, StreamStats, emit_failed}
use nftblock.Blocklist.Stream.{stream_chunks}
use nftblock.Blocklist.Stream.Net.{IpNetLib, IpNetLaws}
use nftblock.Blocklist.Stream.Replay.{collect, replay, play_on}
use nftblock.Blocklist.Stream.Replay.Parts.{stream_chunks-play}
use nftblock.Blocklist.Stream.Results.{collect-verdict}
use nftblock.Blocklist.Stream.Verdict.{verdict, error_of}

-- The error of a callback that refuses, and otherwise that of the lines.
abbrev pub refused_or :
    {I A E : Type 0} → Result E (Unit {0}) → Option (StreamError I A E) → Option (StreamError I A E)
refused_or (ok u) lines_error = lines_error
refused_or (err e) lines_error = some (emit_failed e)

error_of-play_on :
    {I A E S : Type 0} (r : Result (StreamError I A E) StreamStats) (t : Result E (Unit {0}) × S)
    → error_of (play_on r t).0 ≡ refused_or t.0 (error_of r)
error_of-play_on r (ok u, s) = refl
error_of-play_on r (err e, s) = refl

module _ (lib : IpNetLib) (laws : IpNetLaws lib) (I E S : Type 0) (limit : ℕ) where
  -- With a positive limit, the error of the function is that of the callback when it refuses one of
  -- the chunks that a recording run collects, handed to it in order. Otherwise it is that of the
  -- first line that cannot be read, cannot be parsed, has host bits, or is out of order, and the
  -- function returns when there is no such line.
  pub stream_chunks-verdict :
      (emit : Emit E S) (lines : List (Result I Text)) (s : S)
      → 0 < limit
      → error_of (stream_chunks lib emit limit lines s).0
        ≡ refused_or
            (replay emit (stream_chunks lib (collect {E = E}) limit lines []).1 s).0
            (verdict lib 1 false 0 lines)
  stream_chunks-verdict emit lines s pos =
      ap (λ o. error_of o.0) (stream_chunks-play lib emit limit lines s)
      ∙ error_of-play_on (stream_chunks lib (collect {E = E}) limit lines []).0
          (replay emit (stream_chunks lib (collect {E = E}) limit lines []).1 s)
      ∙ ap (refused_or (replay emit (stream_chunks lib (collect {E = E}) limit lines []).1 s).0)
          (collect-verdict lib laws I E limit lines pos)
