-- ===== src/Prelude/Effects.antt =====
-- Fallible operations on a state, and what it is for an operation to keep a relation between the
-- state before it and the state after it.
use mathlib.Core.Bool.{Bool}
use nftblock.Prelude.Tests.{if◌then◌else◌}
use nftblock.Prelude.Results.{Result, ok, err}

-- An error keeps what the operation has done to the state.
abbrev pub Eff : Type 0 → Type 0 → Type 0 → Type 0
Eff S E A = S → Result E A × S

module _ {S E : Type 0} where
  abbrev pub after : {A B : Type 0} → Result E A × S → (A → Eff S E B) → Result E B × S
  after (ok a, s) f = f a s
  after (err e, s) f = (err e, s)

  infixl 5 ◌>>=◌ ◌>>◌
  abbrev pub ◌>>=◌ : {A B : Type 0} → Eff S E A → (A → Eff S E B) → Eff S E B
  ◌>>=◌ m f s = after (m s) f

  abbrev pub ◌>>◌ : {B : Type 0} → Eff S E (Unit {0}) → Eff S E B → Eff S E B
  ◌>>◌ m n s = after (m s) (λ _. n)

  abbrev pub pure : {A : Type 0} → A → Eff S E A
  pure a s = (ok a, s)

  abbrev pub throw : {A : Type 0} → E → Eff S E A
  throw e s = (err e, s)

  abbrev pub when : Bool → Eff S E (Unit {0}) → Eff S E (Unit {0})
  when b m s = if b then m s else (ok tt, s)

  -- A result that needs no state.
  abbrev pub lift : {A : Type 0} → Result E A → Eff S E A
  lift r s = (r, s)

-- The errors of an operation, under a constructor of the caller's.
abbrev pub map_err : {E F A : Type 0} → (E → F) → Result E A → Result F A
map_err f (ok a) = ok a
map_err f (err e) = err (f e)

abbrev pub with_err : {S E F A : Type 0} → (E → F) → Result E A × S → Result F A × S
with_err f (r, s) = (map_err f r, s)

-- An operation for its effect alone: a failure is logged.
abbrev pub attempt : {S E F : Type 0} → Eff S E (Unit {0}) → Eff S F (Unit {0})
attempt m s = (ok tt, (m s).1)

-- What holds of the result and the state of an operation that does not fail.
abbrev pub Done : {S E A : Type 0} → (A → S → Type 0) → Result E A × S → Type 0
Done P (ok a, s) = P a s
Done P (err e, s) = Unit

module _ {S E : Type 0} (R : S → S → Type 0) where
  abbrev pub Keeps : {A : Type 0} → Eff S E A → Type 0
  Keeps m = (s : S) → R s (m s).1

  module _ (R-trans : (s t u : S) → R s t → R t u → R s u) where
    after-Keeps :
        {A B : Type 0} (s : S) (r : Result E A × S) (f : A → Eff S E B)
        → R s r.1
        → ((a : A) → Keeps (f a))
        → R s (after r f).1
    after-Keeps s (ok a, t) f h k = R-trans s t _ h (k a t)
    after-Keeps s (err e, t) f h k = h

    pub >>=-Keeps :
        {A B : Type 0} (m : Eff S E A) (f : A → Eff S E B)
        → Keeps m
        → ((a : A) → Keeps (f a))
        → Keeps (m >>= f)
    >>=-Keeps m f h k s = after-Keeps s (m s) f (h s) k

pub after-Done :
    {S E A B : Type 0} (P : A → S → Type 0) (Q : B → S → Type 0) (r : Result E A × S)
    (f : A → Eff S E B)
    → Done P r
    → ((a : A) (s : S) → P a s → Done Q (f a s))
    → Done Q (after r f)
after-Done P Q (ok a, s) f h k = k a s h
after-Done P Q (err e, s) f h k = tt

-- What holds of the state of an operation that fails.
abbrev pub Failed : {S E A : Type 0} → (S → Type 0) → Result E A × S → Type 0
Failed P (ok a, s) = Unit
Failed P (err e, s) = P s

pub after-Failed :
    {S E A B : Type 0} (P : S → Type 0) (Q : A → S → Type 0) (r : Result E A × S)
    (f : A → Eff S E B)
    → Failed P r
    → Done Q r
    → ((a : A) (s : S) → Q a s → Failed P (f a s))
    → Failed P (after r f)
after-Failed P Q (ok a, s) f h q k = k a s q
after-Failed P Q (err e, s) f h q k = h

-- What holds of the state holds of it if the operation fails, and if it does not.
pub Failed-of_state : {S E A : Type 0} (P : S → Type 0) (r : Result E A × S) → P r.1 → Failed P r
Failed-of_state P (ok a, s) h = tt
Failed-of_state P (err e, s) h = h

pub Done-of_state : {S E A : Type 0} (P : S → Type 0) (r : Result E A × S) → P r.1 → Done (λ _. P) r
Done-of_state P (ok a, s) h = h
Done-of_state P (err e, s) h = tt

pub Done-mono :
    {S E A : Type 0} (P Q : A → S → Type 0) (r : Result E A × S)
    → ((a : A) (s : S) → P a s → Q a s)
    → Done P r
    → Done Q r
Done-mono P Q (ok a, s) f h = f a s h
Done-mono P Q (err e, s) f h = tt

-- What holds of the state of an operation that fails, and of the result of one that does not.
abbrev pub Outcome : {S E A : Type 0} → (S → Type 0) → (A → S → Type 0) → Result E A × S → Type 0
Outcome P Q (ok a, s) = Q a s
Outcome P Q (err e, s) = P s

pub after-Outcome :
    {S E A B : Type 0} (P : S → Type 0) (Q : A → S → Type 0) (T : B → S → Type 0)
    (r : Result E A × S) (f : A → Eff S E B)
    → Outcome P Q r
    → ((a : A) (s : S) → Q a s → Outcome P T (f a s))
    → Outcome P T (after r f)
after-Outcome P Q T (ok a, s) f h k = k a s h
after-Outcome P Q T (err e, s) f h k = h

pub Outcome-of_state :
    {S E A : Type 0} (P : S → Type 0) (r : Result E A × S) → P r.1 → Outcome P (λ _. P) r
Outcome-of_state P (ok a, s) h = h
Outcome-of_state P (err e, s) h = h

pub Outcome-mono :
    {S E A : Type 0} (P P' : S → Type 0) (Q Q' : A → S → Type 0) (r : Result E A × S)
    → ((s : S) → P s → P' s)
    → ((a : A) (s : S) → Q a s → Q' a s)
    → Outcome P Q r
    → Outcome P' Q' r
Outcome-mono P P' Q Q' (ok a, s) f g h = g a s h
Outcome-mono P P' Q Q' (err e, s) f g h = f s h

-- What holds in either case holds of the state.
pub state_of_Outcome :
    {S E A : Type 0} (P : S → Type 0) (r : Result E A × S) → Outcome P (λ _. P) r → P r.1
state_of_Outcome P (ok a, s) h = h
state_of_Outcome P (err e, s) h = h

-- A family of statements about a run, as one statement.
pub Done-all :
    {S E A I : Type 0} (P : I → A → S → Type 0) (r : Result E A × S)
    → ((i : I) → Done (P i) r)
    → Done (λ a s. (i : I) → P i a s) r
Done-all P (ok a, s) h = h
Done-all P (err e, s) h = tt
