-- ===== src/Blocklist/Stream/Canonical.antt =====
-- The intervals that `stream_chunks` (src/blocklist.rs) hands out are determined by the addresses.
use nftblock.Prelude.{
  ℕ, suc, ◌^◌, ◌≤◌, ◌<◌, ◌≡◌, refl, sym, ap, ◌∙◌, true, false, List, [], ◌∷◌, some, none, ltb,
  arith, Bool-cases, inl, inr, ltb→lt, ltb→le, concat, Option, subst,
}
use nftblock.Text.{Text}
use nftblock.Blocklist.{AddressInterval}
use nftblock.Blocklist.Prefixes.{IsInterval, IsWord, stop_of}
use nftblock.Blocklist.Stream.Control.{Result, ok, StreamStats}
use nftblock.Blocklist.Stream.{stream_chunks}
use nftblock.Blocklist.Stream.Net.{IpNetLib, IpNetLaws}
use nftblock.Blocklist.Stream.Replay.{Chunks, collect}
use nftblock.Blocklist.Stream.Order.{low, high, Chain, covers, nets, nets_cover}
use nftblock.Blocklist.Stream.Results.{stream_chunks-IsStreamed}

holds_one : (i : AddressInterval) → IsInterval i → low i < high i
holds_one (AddressInterval.v4 f a) h = h.holds_one
holds_one (AddressInterval.v6 f a) h = omega (arith, h.holds_one)

low-covered :
    (i : AddressInterval) (is : List AddressInterval)
    → IsInterval i
    → covers (low i) (i ∷ is) ≡ true
low-covered i is h = ground (arith, holds_one i h)

covers-below :
    (x start stop : ℕ) (is : List AddressInterval)
    → Chain start stop is
    → x < start
    → covers x is ≡ false
covers-below x start stop [] c h = refl
covers-below x start stop (i ∷ is) (lo, w, rest) h = ground (
  arith,
  holds_one i w,
  covers-below x (suc (high i)) stop is rest (omega (arith, holds_one i w)),
)

stop_of-le : (w : ℕ) (a : Option ℕ) → IsWord w a → stop_of w a ≤ 2 ^ w
stop_of-le w none v = omega arith
stop_of-le w (some a) v = omega (arith, v)

stop_of_unique :
    (w : ℕ) (a b : Option ℕ) → IsWord w a → IsWord w b → stop_of w a ≡ stop_of w b → a ≡ b
stop_of_unique w none none v u e = refl
stop_of_unique w none (some b) v u e = let never : ⊥ = omega (arith, u, e) in elim never [ ]
stop_of_unique w (some a) none v u e = let never : ⊥ = omega (arith, v, e) in elim never [ ]
stop_of_unique w (some a) (some b) v u e = ap some e

interval_unique :
    (i j : AddressInterval) → IsInterval i → IsInterval j → low i ≡ low j → high i ≡ high j → i ≡ j
interval_unique (AddressInterval.v4 f a) (AddressInterval.v4 g b) v w lo hi =
    rw (lo, stop_of_unique 32 a b v.is_end w.is_end hi)
interval_unique (AddressInterval.v4 f a) (AddressInterval.v6 g b) v w lo hi =
    let below = stop_of-le 32 a v.is_end in
    let never : ⊥ = omega (arith, v.holds_one, below, lo) in elim never [ ]
interval_unique (AddressInterval.v6 f a) (AddressInterval.v4 g b) v w lo hi =
    let below = stop_of-le 32 b w.is_end in
    let never : ⊥ = omega (arith, w.holds_one, below, lo) in elim never [ ]
interval_unique (AddressInterval.v6 f a) (AddressInterval.v6 g b) v w lo hi =
    let first : f ≡ g = omega (arith, lo) in
    rw (first, stop_of_unique 128 a b v.is_end w.is_end (omega (arith, hi)))

-- Two chains of intervals with the same addresses start alike.
low-le :
    (start stop end : ℕ) (i j : AddressInterval) (is js : List AddressInterval)
    → Chain start stop (i ∷ is)
    → Chain start end (j ∷ js)
    → ((x : ℕ) → covers x (i ∷ is) ≡ covers x (j ∷ js))
    → low j ≤ low i
low-le start stop end i j is js (lo, v, rest) (lo', w, rest') same =
    elim (Bool-cases (ltb (low i) (low j))) [
      | inl e ↦
          let mine = low-covered i is v in
          let theirs =
            covers-below (low i) (low j) end (j ∷ js) (omega arith, w, rest') (ltb→lt _ _ e) in
          let never : ⊥ = cc (mine, theirs, same (low i)) in elim never [ ]
      | inr e ↦ ltb→le _ _ e
    ]

high-le :
    (start stop end : ℕ) (i j : AddressInterval) (is js : List AddressInterval)
    → Chain start stop (i ∷ is)
    → Chain start end (j ∷ js)
    → ((x : ℕ) → covers x (i ∷ is) ≡ covers x (j ∷ js))
    → low i ≡ low j
    → high j ≤ high i
high-le start stop end i j is js (lo, v, rest) (lo', w, rest') same e =
    let past = covers-below (high i) (suc (high i)) stop is rest (omega arith) in
    ground (arith, past, same (high i), holds_one i v)

tail-same :
    (x start stop end : ℕ) (i j : AddressInterval) (is js : List AddressInterval)
    → Chain start stop (i ∷ is)
    → Chain start end (j ∷ js)
    → covers x (i ∷ is) ≡ covers x (j ∷ js)
    → low i ≡ low j
    → high i ≡ high j
    → covers x is ≡ covers x js
tail-same x start stop end i j is js (lo, v, rest) (lo', w, rest') same el eh =
    elim (Bool-cases (ltb x (suc (high i)))) [
      | inl e ↦
          covers-below x (suc (high i)) stop is rest (ltb→lt _ _ e)
          ∙ sym (covers-below x (suc (high j)) end js rest' (omega (arith, ltb→lt _ _ e)))
      | inr e ↦ ground (arith, same, ltb→le _ _ e)
    ]

pub Chain-unique :
    (start stop end : ℕ) (is js : List AddressInterval)
    → Chain start stop is
    → Chain start end js
    → ((x : ℕ) → covers x is ≡ covers x js)
    → is ≡ js
Chain-unique start stop end [] [] c d same = refl
Chain-unique start stop end [] (j ∷ js) c d same =
    let never : ⊥ = cc (same (low j), low-covered j js d.1) in elim never [ ]
Chain-unique start stop end (i ∷ is) [] c d same =
    let never : ⊥ = cc (same (low i), low-covered i is c.1) in elim never [ ]
Chain-unique start stop end (i ∷ is) (j ∷ js) c d same =
    let el : low i ≡ low j = omega (
      arith,
      low-le start stop end i j is js c d same,
      low-le start end stop j i js is d c (λ x. sym (same x)),
    ) in
    let eh : high i ≡ high j = omega (
      arith,
      high-le start stop end i j is js c d same el,
      high-le start end stop j i js is d c (λ x. sym (same x)) (sym el),
    ) in
    rw (
      interval_unique i j c.1 d.1 el eh,
      Chain-unique (suc (high j)) stop end is js (subst (λ h. Chain (suc h) stop is) eh c.2) d.2
          (λ x. tail-same x start stop end i j is js c d (same x) el eh),
    )

-- Whatever networks an address set is written with, and whatever the positive limits are: when the function
-- returns on two inputs that have the same addresses, it hands out the same intervals in the same order.
pub stream_chunks_canonical :
    (lib : IpNetLib) (laws : IpNetLaws lib) (I E : Type 0) (limit other : ℕ)
    (lines lines' : List (Result I Text)) (stats stats' : StreamStats) (log log' : Chunks)
    → 0 < limit
    → 0 < other
    → stream_chunks lib {E = E} collect limit lines [] ≡ (ok stats, log)
    → stream_chunks lib {E = E} collect other lines' [] ≡ (ok stats', log')
    → ((x : ℕ) → nets_cover lib x (nets lib lines) ≡ nets_cover lib x (nets lib lines'))
    → concat log ≡ concat log'
stream_chunks_canonical lib laws I E limit other lines lines' stats stats' log log' pos pos' e e'
      same =
    let s = stream_chunks-IsStreamed lib laws I E limit lines stats log pos e in
    let t = stream_chunks-IsStreamed lib laws I E other lines' stats' log' pos' e' in
    Chain-unique 0 s.stop t.stop _ _ s.chain t.chain
      (λ x. s.covers_all x ∙ same x ∙ sym (t.covers_all x))

high-bound : (i : AddressInterval) → IsInterval i → high i < 2 ^ 129
high-bound (AddressInterval.v4 f a) h = omega (arith, stop_of-le 32 a h.is_end)
high-bound (AddressInterval.v6 f a) h = omega (arith, stop_of-le 128 a h.is_end)

Chain-bound :
    (start stop : ℕ) (is : List AddressInterval)
    → start ≤ 2 ^ 129
    → Chain start stop is
    → Chain start (2 ^ 129) is
Chain-bound start stop [] h c = h
Chain-bound start stop (i ∷ is) h (lo, v, rest) =
    (lo, v, Chain-bound (suc (high i)) stop is (omega (arith, high-bound i v)) rest)

-- With a positive limit, when the function returns, the intervals handed out each hold an address, come in the order of
-- the addresses, IPv4 first, and leave a free address between two of one family.
pub stream_chunks-Chain :
    (lib : IpNetLib) (laws : IpNetLaws lib) (I E : Type 0) (limit : ℕ)
    (lines : List (Result I Text)) (stats : StreamStats) (log : Chunks)
    → 0 < limit
    → stream_chunks lib {E = E} collect limit lines [] ≡ (ok stats, log)
    → Chain 0 (2 ^ 129) (concat log)
stream_chunks-Chain lib laws I E limit lines stats log pos e =
    let s = stream_chunks-IsStreamed lib laws I E limit lines stats log pos e in
    Chain-bound 0 s.stop (concat log) (omega arith) s.chain
