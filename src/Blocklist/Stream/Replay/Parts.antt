-- ===== src/Blocklist/Stream/Replay/Parts.antt =====
-- The parts of `stream_chunks` (src/blocklist.rs) treat every callback as the recording one.
use nftblock.Prelude.{
  ℕ, suc, ◌≡◌, refl, ap, ◌∙◌, ◌||◌, Option, none, some, List, [], ◌∷◌, ◌⊎◌, inl, inr, leb, ◌==◌,
  Bool-cases,
}
use nftblock.Text.{Text, trim, is_empty, starts_with_char}
use nftblock.Blocklist.{AddressInterval}
use nftblock.Blocklist.Stream.Net.{IpNet, IpNetLib}
use nftblock.Blocklist.Stream.Control.{
  Result, ok, err, StreamError, Pending, Locals, initial, Emit, interval_of, push_interval, Exec,
  ◌>>◌, non_canonical, host_bits_set,
}
use nftblock.Blocklist.Stream.{
  emitted, emit_chunk, flush_interval, flush_taken, flush_pending, extend_v4, extend_v6, take_v4,
  take_v6, begin_v6, take_net, take_parsed, take_line, take_lines, finish, stream_chunks,
  run_chunks, stats_of, stats_result, count_cidr, follows, ipv6_last, no_room, is_full, has_chunk,
}
use nftblock.Blocklist.Stream.Replay.{Chunks, collect, and_then, replay, play_on, play}
use nftblock.Blocklist.Stream.Replay.Rules.{
  Replays, Replays-bind, Replays-const, Replays-at, Replays-if, Replays-when,
}

module _ {I A E S : Type 0} where
  emitted-play :
      (l : Locals) (t : Result E (Unit {0}) × S)
      → emitted {I = I} {A = A} l t
        ≡ play_on
            (ok (tt, record l { chunk = []; chunk_boundaries = 0 }))
            (and_then t (λ s. (ok tt, s)))
  unfolding emitted
  emitted-play l (ok u, s) = refl
  emitted-play l (err e, s) = refl

module _ {I A E S : Type 0} {emit : Emit E S} where
  Replays-emit_chunk : Replays {I = I} {A = A} emit (emit_chunk emit) (emit_chunk collect)
  unfolding emit_chunk replay
  Replays-emit_chunk = record {
    agrees = λ l s. emitted-play l (emit l.chunk s);
    appends = λ l log. refl;
  }

  Replays-flush_interval :
      (limit : ℕ) (interval : AddressInterval)
      → Replays {I = I} {A = A} emit
          (flush_interval emit limit interval)
          (flush_interval collect limit interval)
  unfolding flush_interval
  Replays-flush_interval limit interval = Replays-at _ _ λ l.
      Replays-bind _ _ (Replays-when (no_room limit interval l) Replays-emit_chunk) λ _.
        Replays-bind _ _ (Replays-const (λ l. ok (tt, push_interval interval l)))
          λ _. Replays-at _ _ λ l. Replays-when (is_full limit l) Replays-emit_chunk

  Replays-flush_taken :
      (limit : ℕ) (value : Option Pending)
      → Replays {I = I} {A = A} emit
          (flush_taken emit limit value)
          (flush_taken collect limit value)
  unfolding flush_taken
  Replays-flush_taken limit none = Replays-const (λ l. ok (tt, l))
  Replays-flush_taken limit (some value) = Replays-flush_interval limit (interval_of value)

  Replays-flush_pending :
      (limit : ℕ)
      → Replays {I = I} {A = A} emit (flush_pending emit limit) (flush_pending collect limit)
  unfolding flush_pending
  Replays-flush_pending limit = record {
    agrees = λ l. (Replays-flush_taken limit l.pending).agrees (record l { pending = none });
    appends = λ l. (Replays-flush_taken limit l.pending).appends (record l { pending = none });
  }

  Replays-extend_v4 :
      (limit number : ℕ) (value : Text) (first last : ℕ) (p : Option Pending)
      → Replays {I = I} {A = A} emit
          (extend_v4 emit limit number value first last p)
          (extend_v4 collect limit number value first last p)
  unfolding extend_v4
  Replays-extend_v4 limit number value first last none = Replays-const _
  Replays-extend_v4 limit number value first last (some (Pending.v6 f t)) = Replays-const _
  Replays-extend_v4 limit number value first last (some (Pending.v4 f t)) =
      Replays-if (leb first t) (Replays-const _) (
        Replays-if (follows 32 t first) (Replays-const _)
          (Replays-bind _ _ (Replays-flush_pending limit) (λ _. Replays-const _)))

  Replays-extend_v6 :
      (limit number : ℕ) (value : Text) (first last : ℕ) (p : Option Pending)
      → Replays {I = I} {A = A} emit
          (extend_v6 emit limit number value first last p)
          (extend_v6 collect limit number value first last p)
  unfolding extend_v6
  Replays-extend_v6 limit number value first last none = Replays-const _
  Replays-extend_v6 limit number value first last (some (Pending.v4 f t)) = Replays-const _
  Replays-extend_v6 limit number value first last (some (Pending.v6 f t)) =
      Replays-if (leb first t) (Replays-const _) (
        Replays-if (follows 128 t first) (Replays-const _)
          (Replays-bind _ _ (Replays-flush_pending limit) (λ _. Replays-const _)))

  Replays-take_v4 :
      (limit number : ℕ) (value : Text) (first last : ℕ)
      → Replays {I = I} {A = A} emit
          (take_v4 emit limit number value first last)
          (take_v4 collect limit number value first last)
  unfolding take_v4
  Replays-take_v4 limit number value first last = Replays-at _ _ λ l.
      Replays-if l.seen_ipv6 (Replays-const _)
        (Replays-extend_v4 limit number value first last l.pending)

  Replays-begin_v6 :
      (limit : ℕ) → Replays {I = I} {A = A} emit (begin_v6 emit limit) (begin_v6 collect limit)
  unfolding begin_v6
  Replays-begin_v6 limit = Replays-at _ _ λ l. Replays-if l.seen_ipv6 (Replays-const _) (
      Replays-bind _ _ (Replays-flush_pending limit) λ _.
        Replays-bind _ _ (Replays-at _ _ λ l. Replays-when (has_chunk l) Replays-emit_chunk)
          λ _. Replays-const _)

  Replays-take_v6 :
      (limit number : ℕ) (value : Text) (first prefix_len : ℕ)
      → Replays {I = I} {A = A} emit
          (take_v6 emit limit number value first prefix_len)
          (take_v6 collect limit number value first prefix_len)
  unfolding take_v6
  Replays-take_v6 limit number value first prefix_len =
      Replays-bind _ _ (Replays-begin_v6 limit) λ _.
        Replays-at _ _
          λ l. Replays-extend_v6 limit number value first (ipv6_last first prefix_len) l.pending

module _ (lib : IpNetLib) {I E S : Type 0} {emit : Emit E S} (limit : ℕ) where
  Replays-take_net :
      (number : ℕ) (value : Text) (net : IpNet lib.Ipv4Net lib.Ipv6Net)
      → Replays {I = I} emit
          (take_net lib emit limit number value net)
          (take_net lib collect limit number value net)
  unfolding take_net
  Replays-take_net number value (IpNet.v4 net) = Replays-take_v4 limit number value _ _
  Replays-take_net number value (IpNet.v6 net) = Replays-take_v6 limit number value _ _

  Replays-take_parsed :
      (number : ℕ) (value : Text) (p : lib.AddrParseError ⊎ IpNet lib.Ipv4Net lib.Ipv6Net)
      → Replays {I = I} emit
          (take_parsed lib emit limit number value p)
          (take_parsed lib collect limit number value p)
  unfolding take_parsed
  Replays-take_parsed number value (inl e) = Replays-const _
  Replays-take_parsed number value (inr net) =
      Replays-if (lib.is_trunc net)
        (Replays-bind _ _ (Replays-const (λ l. ok (tt, count_cidr l)))
          (λ _. Replays-take_net number value net))
        (Replays-const (λ l. err (non_canonical number value host_bits_set)))

  Replays-take_line :
      (number : ℕ) (line : Result I Text)
      → Replays emit
          (take_line lib emit limit number line)
          (take_line lib collect limit number line)
  unfolding take_line
  Replays-take_line number (err source) = Replays-const _
  Replays-take_line number (ok line) =
      Replays-if (is_empty (trim line) || starts_with_char b'#' (trim line))
        (Replays-const (λ l. ok (tt, l)))
        (Replays-take_parsed number (trim line) (lib.parse (trim line)))

  Replays-take_lines :
      (number : ℕ) (lines : List (Result I Text))
      → Replays emit
          (take_lines lib emit limit number lines)
          (take_lines lib collect limit number lines)
  unfolding take_lines
  Replays-take_lines number [] = Replays-const _
  Replays-take_lines number (line ∷ lines) =
      Replays-bind _ _ (Replays-take_line number line) (λ _. Replays-take_lines (suc number) lines)

  Replays-finish : Replays {I = I} emit (finish lib emit limit) (finish lib collect limit)
  unfolding finish
  Replays-finish =
      Replays-bind _ _ (Replays-flush_pending limit)
        λ _. Replays-at _ _ λ l. Replays-when (has_chunk l) Replays-emit_chunk

stats_of-play_on :
    {I A E S : Type 0} (r : Result (StreamError I A E) (Unit {0} × Locals))
    (t : Result E (Unit {0}) × S)
    → stats_of (play_on r t) ≡ play_on (stats_result r) t
stats_of-play_on r (ok u, s) = refl
stats_of-play_on r (err e, s) = refl

stats_of-play :
    {I A E S : Type 0} (emit : Emit E S)
    (rc : Result (StreamError I A E) (Unit {0} × Locals) × Chunks) (s : S)
    → stats_of (play emit rc s) ≡ play emit (stats_of rc) s
stats_of-play emit (r, log) s = stats_of-play_on r (replay emit log s)

run_chunks-play :
    (lib : IpNetLib) {I E S : Type 0} (emit : Emit E S) (limit : ℕ) (lines : List (Result I Text))
    (s : S)
    → run_chunks lib emit limit lines s
      ≡ play emit (run_chunks lib (collect {E = E}) limit lines []) s
unfolding run_chunks
run_chunks-play lib {I} {E} emit limit lines s =
    ap stats_of (run.agrees initial s) ∙ stats_of-play emit (recorded initial []) s
  where
    recorded : Exec I lib.AddrParseError E Chunks (Unit {0})
    recorded = take_lines lib collect limit 1 lines >> finish lib collect limit

    run : Replays emit (take_lines lib emit limit 1 lines >> finish lib emit limit) recorded
    run = Replays-bind _ _ (Replays-take_lines lib limit 1 lines) (λ _. Replays-finish lib limit)

-- For every callback, state of it, limit and input: the result and the final state are those of
-- handing the chunks that a recording run collects to the callback, in order, up to the first that
-- it refuses. Its error is then the result, otherwise the result is that of the recording run.
pub stream_chunks-play :
    (lib : IpNetLib) {I E S : Type 0} (emit : Emit E S) (limit : ℕ) (lines : List (Result I Text))
    (s : S)
    → stream_chunks lib emit limit lines s
      ≡ play emit (stream_chunks lib (collect {E = E}) limit lines []) s
unfolding stream_chunks replay
stream_chunks-play lib emit limit lines s = elim (Bool-cases (limit == 0)) [
  | inl e ↦ rw e
  | inr e ↦ rw e (run_chunks-play lib emit limit lines s)
]
