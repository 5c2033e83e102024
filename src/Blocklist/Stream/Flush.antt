-- ===== src/Blocklist/Stream/Flush.antt =====
-- What `flush_pending` (src/blocklist.rs) does with an interval: it joins the open chunk, and chunks
-- that are full, or that the interval does not fit, are handed out.
use mathlib.Core.List.{append_assoc, append-nil}
use nftblock.Prelude.{
  ℕ, ◌+◌, ◌≤◌, ◌<◌, max, ◌≡◌, refl, sym, ap, ◌∙◌, Bool, true, false, List, [], ◌∷◌, ◌++◌, arith,
  All, All-append, concat, concat-snoc,
}
use nftblock.Text.{is_empty}
use nftblock.Blocklist.{AddressInterval, boundary_elements}
use nftblock.Blocklist.Stream.Control.{ok, Locals, push_interval, count_interval, when}
use nftblock.Blocklist.Stream.{emit_chunk, flush_interval, no_room, is_full}
use nftblock.Blocklist.Stream.Replay.{Chunks, collect}

-- The boundary elements of a chunk.
abbrev pub total : List AddressInterval → ℕ
total [] = 0
total (i ∷ is) = boundary_elements i + total is

abbrev pub is_ipv6 : AddressInterval → Bool
is_ipv6 (AddressInterval.v4 first after_last) = false
is_ipv6 (AddressInterval.v6 first after_last) = true

abbrev pub OneFamily : Bool → List AddressInterval → Type 0
OneFamily b is = All (λ i. is_ipv6 i ≡ b) is

-- A chunk as the callback gets it: not empty, of one family, with a bounded number of elements.
-- One interval has two elements at most, so a limit of 1 is not always kept.
pub record IsChunk (limit : ℕ) (chunk : List AddressInterval) : Type 0 where
  pub not_empty : is_empty chunk ≡ false
  pub bounded : total chunk ≤ max limit 2
  pub family : Bool
  pub one_family : OneFamily family chunk

-- The open chunk is counted and below the limit, and the chunks handed out are as they should.
pub record IsOpen (limit : ℕ) (b : Bool) (l : Locals) (log : Chunks) : Type 0 where
  pub counted : l.chunk_boundaries ≡ total l.chunk
  pub below : l.chunk_boundaries < limit
  pub one_family : OneFamily b l.chunk
  pub chunks : All (IsChunk limit) log

-- The intervals so far, in order.
abbrev pub intervals : Locals → Chunks → List AddressInterval
intervals l log = concat log ++ l.chunk

total-snoc :
    (is : List AddressInterval) (i : AddressInterval)
    → total (is ++ i ∷ []) ≡ total is + boundary_elements i
total-snoc [] i = omega arith
total-snoc (j ∷ is) i = omega (arith, total-snoc is i)

boundary_elements-le : (i : AddressInterval) → (0 < boundary_elements i) × (boundary_elements i ≤ 2)
unfolding boundary_elements
boundary_elements-le i = ground arith

-- Handing out the open chunk or not.
abbrev pub cut_locals : Bool → Locals → Locals
cut_locals true l = record l { chunk = []; chunk_boundaries = 0 }
cut_locals false l = l

abbrev pub cut_log : Bool → Locals → Chunks → Chunks
cut_log true l log = log ++ l.chunk ∷ []
cut_log false l log = log

pub intervals-cut :
    (b : Bool) (l : Locals) (log : Chunks)
    → intervals (cut_locals b l) (cut_log b l log) ≡ intervals l log
intervals-cut true l log = append-nil (concat (log ++ l.chunk ∷ [])) ∙ concat-snoc log l.chunk
intervals-cut false l log = refl

pub when-cut :
    {I A E : Type 0} (b : Bool) (l : Locals) (log : Chunks)
    → when {I = I} {A = A} {E = E} b (emit_chunk collect) l log
      ≡ (ok (tt, cut_locals b l), cut_log b l log)
unfolding emit_chunk
when-cut true l log = refl
when-cut false l log = refl

module _ (limit : ℕ) (b : Bool) (l : Locals) (log : Chunks) where
  -- A chunk that is handed out is as it should be, and one that stays open is below the limit.
  pub cut-IsOpen :
      (c : Bool)
      → 0 < limit
      → l.chunk_boundaries ≡ total l.chunk
      → OneFamily b l.chunk
      → All (IsChunk limit) log
      → (c ≡ true → (is_empty l.chunk ≡ false) × (total l.chunk ≤ max limit 2))
      → (c ≡ false → l.chunk_boundaries < limit)
      → IsOpen limit b (cut_locals c l) (cut_log c l log)
  cut-IsOpen true pos counted family chunks out stay = record {
    counted = refl;
    below = pos;
    one_family = tt;
    chunks = All-append _ log _ chunks (chunk, tt);
  }
    where
      chunk : IsChunk limit l.chunk
      chunk = record {
        not_empty = (out refl).0;
        bounded = (out refl).1;
        family = b;
        one_family = family;
      }
  cut-IsOpen false pos counted family chunks out stay = record {
    counted = counted;
    below = stay refl;
    one_family = family;
    chunks = chunks;
  }

  make_room-IsOpen :
      (i : AddressInterval)
      → IsOpen limit b l log
      → IsOpen limit b (cut_locals (no_room limit i l) l) (cut_log (no_room limit i l) l log)
  make_room-IsOpen i o =
      cut-IsOpen (no_room limit i l) (omega (arith, o.below)) o.counted o.one_family o.chunks
        (λ c. (ground (arith, c), omega (arith, o.below, o.counted))) (λ _. o.below)

  -- Then the chunk is empty, or there is room for the interval.
  make_room-bounded :
      (i : AddressInterval)
      → IsOpen limit b l log
      → total (cut_locals (no_room limit i l) l).chunk + boundary_elements i ≤ max limit 2
  make_room-bounded i o = ground (arith, boundary_elements-le i, o.below, o.counted)

snoc-not_empty : (is : List AddressInterval) (i : AddressInterval) → is_empty (is ++ i ∷ []) ≡ false
snoc-not_empty [] i = refl
snoc-not_empty (j ∷ is) i = refl

-- After the interval has joined.
join-IsOpen :
    (limit : ℕ) (b : Bool) (l : Locals) (log : Chunks) (i : AddressInterval)
    → IsOpen limit b l log
    → is_ipv6 i ≡ b
    → total l.chunk + boundary_elements i ≤ max limit 2
    → IsOpen limit b
        (cut_locals (is_full limit (push_interval i l)) (push_interval i l))
        (cut_log (is_full limit (push_interval i l)) (push_interval i l) log)
unfolding push_interval
join-IsOpen limit b l log i o f room =
    cut-IsOpen limit b (push_interval i l) log (is_full limit (push_interval i l))
      (omega (arith, o.below)) (omega (arith, total-snoc l.chunk i, o.counted))
      (All-append _ l.chunk _ o.one_family (f, tt)) o.chunks
      (λ c. (snoc-not_empty l.chunk i, omega (arith, total-snoc l.chunk i)))
      (λ c. ground (arith, c))

-- The locals and the record after `flush_interval`.
abbrev pub flushed_locals : ℕ → AddressInterval → Locals → Locals
flushed_locals limit i l =
    let l' = push_interval i (cut_locals (no_room limit i l) l) in cut_locals (is_full limit l') l'

abbrev pub flushed_log : ℕ → AddressInterval → Locals → Chunks → Chunks
flushed_log limit i l log =
    let l' = push_interval i (cut_locals (no_room limit i l) l) in
    cut_log (is_full limit l') l' (cut_log (no_room limit i l) l log)

pub flush_interval-runs :
    {I A E : Type 0} (limit : ℕ) (i : AddressInterval) (l : Locals) (log : Chunks)
    → flush_interval {I = I} {A = A} {E = E} collect limit i l log
      ≡ (ok (tt, flushed_locals limit i l), flushed_log limit i l log)
unfolding flush_interval
flush_interval-runs limit i l log =
    let c = no_room limit i l in
    let l' = push_interval i (cut_locals c l) in
    rw (when-cut c l log) (when-cut (is_full limit l') l' (cut_log c l log))

pub flushed-IsOpen :
    (limit : ℕ) (b : Bool) (i : AddressInterval) (l : Locals) (log : Chunks)
    → IsOpen limit b l log
    → is_ipv6 i ≡ b
    → IsOpen limit b (flushed_locals limit i l) (flushed_log limit i l log)
flushed-IsOpen limit b i l log o f =
    join-IsOpen limit b _ _ i (make_room-IsOpen limit b l log i o) f
      (make_room-bounded limit b l log i o)

-- The interval comes behind those so far.
pub intervals-flushed :
    (limit : ℕ) (i : AddressInterval) (l : Locals) (log : Chunks)
    → intervals (flushed_locals limit i l) (flushed_log limit i l log) ≡ intervals l log ++ i ∷ []
unfolding push_interval
intervals-flushed limit i l log =
    let c = no_room limit i l in
    let l' = push_interval i (cut_locals c l) in
    intervals-cut (is_full limit l') l' (cut_log c l log)
    ∙ sym (append_assoc (concat (cut_log c l log)) (cut_locals c l).chunk (i ∷ []))
    ∙ ap (λ is. is ++ i ∷ []) (intervals-cut c l log)

-- The other locals: the interval is counted, the rest stays.
pub cut_others :
    (c : Bool) (l : Locals)
    → ((cut_locals c l).pending ≡ l.pending)
      × ((cut_locals c l).seen_ipv6 ≡ l.seen_ipv6)
      × ((cut_locals c l).stats ≡ l.stats)
cut_others true l = (refl, refl, refl)
cut_others false l = (refl, refl, refl)

pub flushed_others :
    (limit : ℕ) (i : AddressInterval) (l : Locals)
    → ((flushed_locals limit i l).pending ≡ l.pending)
      × ((flushed_locals limit i l).seen_ipv6 ≡ l.seen_ipv6)
      × ((flushed_locals limit i l).stats ≡ count_interval i l.stats)
unfolding push_interval
flushed_others limit i l =
    let c = no_room limit i l in
    let l' = push_interval i (cut_locals c l) in
    let (p, s, t) = cut_others c l in
    let (p', s', t') = cut_others (is_full limit l') l' in
    (p' ∙ p, s' ∙ s, t' ∙ ap (count_interval i) t)
