-- ===== src/Blocklist/Stream/Control.antt =====
-- The state of `stream_chunks` (src/blocklist.rs), its errors and statistics, and how its parts are
-- put together. The local variables are a record; an early return drops them and keeps what the
-- callback `emit` has done to its own state.
use nftblock.Prelude.{ℕ, ◌+◌, Bool, false, Option, none, List, [], ◌∷◌, ◌++◌, if◌then◌else◌}
pub use nftblock.Prelude.Results.{Result, ok, err}
use nftblock.Text.{Text}
use nftblock.Word.{wrapping_add, checked_add}
use nftblock.Blocklist.{AddressInterval, boundary_elements}

pub record StreamStats : Type 0 where
  pub cidrs : ℕ
  pub ipv4_intervals : ℕ
  pub ipv6_intervals : ℕ
  pub ipv4_boundaries : ℕ
  pub ipv6_boundaries : ℕ

abbrev pub no_stats : StreamStats
no_stats = record {
  cidrs = 0;
  ipv4_intervals = 0;
  ipv6_intervals = 0;
  ipv4_boundaries = 0;
  ipv6_boundaries = 0;
}

-- The three reasons of `ParseError::NonCanonical`.
pub data Reason : Type 0 where
  host_bits_set ipv4_after_ipv6 out_of_order : Reason

-- `ParseError`, an error of the callback, and the panics of `assert!` and `unreachable!`.
pub data StreamError (I A E : Type 0) : Type 0 where
  io : ℕ → I → StreamError I A E
  invalid : ℕ → Text → A → StreamError I A E
  non_canonical : ℕ → Text → Reason → StreamError I A E
  emit_failed : E → StreamError I A E
  panicked : StreamError I A E

pub data Pending : Type 0 where
  v4 : ℕ → ℕ → Pending
  v6 : ℕ → ℕ → Pending

pub record Locals : Type 0 where
  pub stats : StreamStats
  pub chunk : List AddressInterval
  pub chunk_boundaries : ℕ
  pub pending : Option Pending
  pub seen_ipv6 : Bool

abbrev pub initial : Locals
initial = record {
  stats = no_stats;
  chunk = [];
  chunk_boundaries = 0;
  pending = none;
  seen_ipv6 = false;
}

-- `emit`: a callback over a state `S` of its own.
abbrev pub Emit : Type 0 → Type 0 → Type 0
Emit E S = List AddressInterval → S → Result E (Unit {0}) × S

-- The interval that a pending range becomes.
unfoldable pub interval_of : Pending → AddressInterval
interval_of (Pending.v4 first last) = AddressInterval.v4 first (checked_add 32 last 1)
interval_of (Pending.v6 first last) = AddressInterval.v6 first (checked_add 128 last 1)

-- The counters are `u64`.
unfoldable pub count_interval : AddressInterval → StreamStats → StreamStats
count_interval (AddressInterval.v4 first after_last) stats = record stats {
  ipv4_intervals = wrapping_add 64 stats.ipv4_intervals 1;
  ipv4_boundaries =
      wrapping_add 64 stats.ipv4_boundaries
        (boundary_elements (AddressInterval.v4 first after_last));
}
count_interval (AddressInterval.v6 first after_last) stats = record stats {
  ipv6_intervals = wrapping_add 64 stats.ipv6_intervals 1;
  ipv6_boundaries =
      wrapping_add 64 stats.ipv6_boundaries
        (boundary_elements (AddressInterval.v6 first after_last));
}

unfoldable pub push_interval : AddressInterval → Locals → Locals
push_interval interval l = record l {
  chunk = l.chunk ++ interval ∷ [];
  chunk_boundaries = l.chunk_boundaries + boundary_elements interval;
  stats = count_interval interval l.stats;
}

-- A part of the function: it goes on with new locals, or returns an error.
abbrev pub Exec : (I A E S : Type 0) → Type 0 → Type 0
Exec I A E S B = Locals → S → Result (StreamError I A E) (B × Locals) × S

module _ {I A E S : Type 0} where
  abbrev pub continue :
      {B C : Type 0}
      → Result (StreamError I A E) (B × Locals) × S
      → (B → Exec I A E S C)
      → Result (StreamError I A E) (C × Locals) × S
  continue (ok (b, l), s) f = f b l s
  continue (err e, s) f = (err e, s)

  infixl 5 ◌>>=◌ ◌>>◌
  abbrev pub ◌>>=◌ : {B C : Type 0} → Exec I A E S B → (B → Exec I A E S C) → Exec I A E S C
  ◌>>=◌ m f l s = continue (m l s) f

  abbrev pub ◌>>◌ : {C : Type 0} → Exec I A E S (Unit {0}) → Exec I A E S C → Exec I A E S C
  ◌>>◌ m n l s = continue (m l s) (λ _. n)

  abbrev pub pure : {B : Type 0} → B → Exec I A E S B
  pure b l s = (ok (b, l), s)

  abbrev pub fail : {B : Type 0} → StreamError I A E → Exec I A E S B
  fail e l s = (err e, s)

  abbrev pub modify : (Locals → Locals) → Exec I A E S (Unit {0})
  modify f l s = (ok (tt, f l), s)

  abbrev pub when : Bool → Exec I A E S (Unit {0}) → Exec I A E S (Unit {0})
  when b m l s = if b then m l s else (ok (tt, l), s)
