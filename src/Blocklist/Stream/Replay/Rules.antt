-- ===== src/Blocklist/Stream/Replay/Rules.antt =====
-- What it is for a part of `stream_chunks` (src/blocklist.rs) to treat every callback as it treats
-- the recording one, with a rule for each way to build a part.
use mathlib.Core.List.{append_assoc, append-nil}
use nftblock.Prelude.{◌≡◌, refl, sym, ap, ◌∙◌, Bool, true, false, [], ◌∷◌, ◌++◌, if◌then◌else◌}
use nftblock.Blocklist.Stream.Control.{
  Result, ok, err, StreamError, Locals, Emit, Exec, continue, when, emit_failed,
}
use nftblock.Blocklist.Stream.Replay.{Chunks, collect, and_then, replay, play_on, play}

replay-collect :
    {E : Type 0} (cs log : Chunks) → replay (collect {E = E}) cs log ≡ (ok tt, log ++ cs)
unfolding replay
replay-collect [] log = rw append-nil
replay-collect {E} (c ∷ cs) log =
    replay-collect {E = E} cs (log ++ c ∷ []) ∙ ap (λ l. (ok tt, l)) (append_assoc log (c ∷ []) cs)

and_then_assoc :
    {E S : Type 0} (r : Result E (Unit {0}) × S) (f g h : S → Result E (Unit {0}) × S)
    → ((s : S) → f s ≡ and_then (g s) h)
    → and_then r f ≡ and_then (and_then r g) h
and_then_assoc (ok u, s) f g h e = e s
and_then_assoc (err e, s) f g h _ = refl

replay-append :
    {E S : Type 0} (emit : Emit E S) (xs ys : Chunks) (s : S)
    → replay emit (xs ++ ys) s ≡ and_then (replay emit xs s) (replay emit ys)
unfolding replay
replay-append emit [] ys s = refl
replay-append emit (x ∷ xs) ys s =
    and_then_assoc (emit x s) (replay emit (xs ++ ys)) (replay emit xs) (replay emit ys)
      (replay-append emit xs ys)

-- `m` is what its recording version `c` says, and `c` only adds to the record.
pub record Replays {I A E S B : Type 0} (emit : Emit E S) (m : Exec I A E S B)
    (c : Exec I A E Chunks B) : Type 0 where
  pub agrees : (l : Locals) (s : S) → m l s ≡ play emit (c l []) s
  pub appends : (l : Locals) (log : Chunks) → c l log ≡ play collect (c l []) log

module _ {I A E S B : Type 0} where
  after_ok :
      Result E (Unit {0}) × S
      → (S → Result (StreamError I A E) B × S)
      → Result (StreamError I A E) B × S
  after_ok (ok u, s) f = f s
  after_ok (err e, s) f = (err (emit_failed e), s)

  after_ok_cong :
      (t : Result E (Unit {0}) × S) (f g : S → Result (StreamError I A E) B × S)
      → ((s : S) → f s ≡ g s)
      → after_ok t f ≡ after_ok t g
  unfolding after_ok
  after_ok_cong (ok u, s) f g h = h s
  after_ok_cong (err e, s) f g h = refl

  play_on-and_then :
      (r : Result (StreamError I A E) B) (t : Result E (Unit {0}) × S)
      (f : S → Result E (Unit {0}) × S)
      → play_on r (and_then t f) ≡ after_ok t (λ s. play_on r (f s))
  unfolding after_ok
  play_on-and_then r (ok u, s) f = refl
  play_on-and_then r (err e, s) f = refl

  play-play :
      (emit : Emit E S) (rc : Result (StreamError I A E) B × Chunks) (log : Chunks) (s : S)
      → play emit (play collect rc log) s ≡ after_ok (replay emit log s) (play emit rc)
  play-play emit (r, ys) log s =
      ap (λ t. play emit (play_on r t) s) (replay-collect ys log)
      ∙ ap (play_on r) (replay-append emit log ys s)
      ∙ play_on-and_then r (replay emit log s) (replay emit ys)

module _ {I A E S B C : Type 0} where
  continue_err :
      (x : StreamError I A E) (f : B → Exec I A E S C) (t : Result E (Unit {0}) × S)
      → continue (play_on (err x) t) f ≡ play_on (err x) t
  continue_err x f (ok u, s) = refl
  continue_err x f (err e, s) = refl

module _ {I A E S B C : Type 0} (emit : Emit E S) where
  continue-play :
      (f : B → Exec I A E S C) (g : B → Exec I A E Chunks C)
      → ((b : B) → Replays emit (f b) (g b))
      → (rc : Result (StreamError I A E) (B × Locals) × Chunks) (s : S)
      → continue (play emit rc s) f ≡ play emit (continue rc g) s
  unfolding after_ok
  continue-play f g k (err x, log) s = continue_err x f (replay emit log s)
  continue-play f g k (ok (b, l), log) s =
      after_continue (replay emit log s)
      ∙ after_ok_cong (replay emit log s) (f b l) (play emit (g b l [])) ((k b).agrees l)
      ∙ sym (play-play emit (g b l []) log s)
      ∙ ap (λ t. play emit t s) (sym ((k b).appends l log))
    where
      after_continue :
          (t : Result E (Unit {0}) × S) → continue (play_on (ok (b, l)) t) f ≡ after_ok t (f b l)
      after_continue (ok u, s') = refl
      after_continue (err e, s') = refl

Replays-record :
    {I A E S B : Type 0} {emit : Emit E S} {m : Exec I A E S B} {c : Exec I A E Chunks B}
    → Replays emit m c
    → Replays collect c c
Replays-record k = record { agrees = k.appends; appends = k.appends }

module _ {I A E S B C : Type 0} {emit : Emit E S} where
  pub Replays-bind :
      {m : Exec I A E S B} {c : Exec I A E Chunks B} (f : B → Exec I A E S C)
      (g : B → Exec I A E Chunks C)
      → Replays emit m c
      → ((b : B) → Replays emit (f b) (g b))
      → Replays emit (λ l s. continue (m l s) f) (λ l s. continue (c l s) g)
  Replays-bind {m} {c} f g km k = record {
    agrees = λ l s. ap (λ t. continue t f) (km.agrees l s) ∙ continue-play emit f g k (c l []) s;
    appends = λ l log.
        ap (λ t. continue t g) (km.appends l log)
        ∙ continue-play collect g g (λ b. Replays-record (k b)) (c l []) log;
  }

module _ {I A E S : Type 0} {emit : Emit E S} where
  pub Replays-const :
      {B : Type 0} (r : Locals → Result (StreamError I A E) (B × Locals))
      → Replays emit (λ l s. (r l, s)) (λ l s. (r l, s))
  unfolding replay
  Replays-const r = record { agrees = λ l s. refl; appends = λ l log. refl }

  pub Replays-at :
      {B : Type 0} (m : Locals → Exec I A E S B) (c : Locals → Exec I A E Chunks B)
      → ((l : Locals) → Replays emit (m l) (c l))
      → Replays emit (λ l. m l l) (λ l. c l l)
  Replays-at m c k = record { agrees = λ l. (k l).agrees l; appends = λ l. (k l).appends l }

  pub Replays-if :
      {B : Type 0} (b : Bool) {m n : Exec I A E S B} {c d : Exec I A E Chunks B}
      → Replays emit m c
      → Replays emit n d
      → Replays emit (if b then m else n) (if b then c else d)
  Replays-if true km kn = km
  Replays-if false km kn = kn

  pub Replays-when :
      (b : Bool) {m : Exec I A E S (Unit {0})} {c : Exec I A E Chunks (Unit {0})}
      → Replays emit m c
      → Replays emit (when b m) (when b c)
  Replays-when true km = km
  Replays-when false km = Replays-const (λ l. ok (tt, l))
