-- ===== src/Netlink/Generations.antt =====
-- src/netlink.rs: the names of the sets of a generation, and the generations that names tell. A name
-- has the number of its generation in sixteen hexadecimal digits.
use nftblock.Prelude.{
  ℕ, zero, suc, ◌+◌, ◌-◌, ◌*◌, ◌/◌, ◌%◌, ◌^◌, ◌<◌, min, max, ◌≡◌, refl, ap, ◌∙◌, Bool, true, false,
  ◌&&◌, Option, none, some, ◌≢◌, ==→≡, List, [], ◌∷◌, ◌++◌, ltb, leb, ◌==◌, if◌then◌else◌, All,
  arith, lt→ltb,
}
use nftblock.Text.{Text, codes, is_empty}
use nftblock.Zones.{Direction}

-- `{generation:016x}` of a `u64`: its sixteen digits.
abbrev digit : ℕ → ℕ
digit d = if ltb d 10 then b'0' + d else b'a' + d - 10

unfoldable pub hex_from : ℕ → ℕ → Text → Text
hex_from zero n s = s
hex_from (suc k) n s = hex_from k (n / 16) (digit (n % 16) ∷ s)

abbrev pub hex : ℕ → Text
hex n = hex_from 16 n []

-- `char::to_digit(16)`
unfoldable pub to_digit : ℕ → Option ℕ
to_digit c =
    if leb b'0' c && leb c b'9'
    then some (c - b'0')
    else if leb b'a' c && leb c b'f'
    then some (c - b'a' + 10)
    else if leb b'A' c && leb c b'F'
    then some (c - b'A' + 10)
    else none

-- `u64::from_str_radix(…, 16)`: a sign `+` may stand before one digit at least.
abbrev digit_onto : ℕ → (ℕ → Option ℕ) → Option ℕ → Option ℕ
digit_onto n f none = none
digit_onto n f (some d) = if ltb (n * 16 + d) (2 ^ 64) then f (n * 16 + d) else none

unfoldable pub read_digits : Text → ℕ → Option ℕ
unfolding to_digit
read_digits [] n = some n
read_digits (c ∷ s) n = digit_onto n (read_digits s) (to_digit c)

unfoldable pub from_hex : Text → Option ℕ
unfolding read_digits
from_hex [] = none
from_hex (c ∷ s) =
    if c == b'+' then (if is_empty s then none else read_digits s 0) else read_digits (c ∷ s) 0

-- `rsplit_once("_g")`, and what is behind it.
abbrev or_here : ℕ → Text → Option Text → Option Text
or_here c s (some value) = some value
or_here c [] none = none
or_here c (d ∷ s) none = if c == b'_' && d == b'g' then some s else none

unfoldable pub behind_g : Text → Option Text
behind_g [] = none
behind_g (c ∷ s) = or_here c s (behind_g s)

-- `next_generation.max(value.saturating_add(1))`, for a name with a number.
abbrev pub observe_value : ℕ → Option ℕ → ℕ
observe_value next none = next
observe_value next (some value) = max next (min (value + 1) (2 ^ 64 - 1))

abbrev pub observe_suffix : ℕ → Option Text → ℕ
observe_suffix next none = next
observe_suffix next (some s) = observe_value next (from_hex s)

unfoldable pub observe_generations : List Text → ℕ → ℕ
unfolding from_hex behind_g
observe_generations [] next = next
observe_generations (name ∷ names) next =
    observe_generations names (observe_suffix next (behind_g name))

abbrev direction_prefix : Direction → Text
direction_prefix Direction.inbound = codes "in"
direction_prefix Direction.outbound = codes "out"

unfoldable pub ipv4_name : Direction → ℕ → Text
ipv4_name direction generation = direction_prefix direction ++ codes "_v4_g" ++ hex generation

unfoldable pub ipv6_name : Direction → ℕ → Text
ipv6_name direction generation = direction_prefix direction ++ codes "_v6_g" ++ hex generation

-- The digits are read back.
to_digit-digit : (d : ℕ) → d < 16 → to_digit (digit d) ≡ some d
unfolding to_digit
to_digit-digit d h = ground (arith, h)

kept :
    (n m : ℕ) (s : Text)
    → m ≡ n
    → n < 2 ^ 64
    → (if ltb m (2 ^ 64) then read_digits s m else none) ≡ read_digits s n
kept n m s e b = rw e (rw (lt→ltb n (2 ^ 64) b))

read_digits-hex_from :
    (k n : ℕ) (s : Text)
    → n < 16 ^ k
    → n < 2 ^ 64
    → read_digits (hex_from k n s) 0 ≡ read_digits s n
unfolding hex_from read_digits
read_digits-hex_from zero n s h b = ap (read_digits s) (omega (arith, h))
read_digits-hex_from (suc k) n s h b =
    read_digits-hex_from k (n / 16) (digit (n % 16) ∷ s) (omega (arith, h)) (omega (arith, b))
    ∙ rw (to_digit-digit (n % 16) (omega arith)) (kept n (n / 16 * 16 + n % 16) s (omega arith) b)

-- Hexadecimal digits are neither `+` nor `_`.
abbrev IsDigit : ℕ → Type 0
IsDigit c = (c ≢ b'+') × (c ≢ b'_')

digit-IsDigit : (d : ℕ) → d < 16 → IsDigit (digit d)
digit-IsDigit d h = (λ e. ground (arith, h, e), λ e. ground (arith, h, e))

hex_from-IsDigit : (k n : ℕ) (s : Text) → All IsDigit s → All IsDigit (hex_from k n s)
unfolding hex_from
hex_from-IsDigit zero n s h = h
hex_from-IsDigit (suc k) n s h =
    hex_from-IsDigit k (n / 16) (digit (n % 16) ∷ s) (digit-IsDigit (n % 16) (omega arith), h)

behind_g-IsDigit : (s : Text) → All IsDigit s → behind_g s ≡ none
unfolding behind_g
behind_g-IsDigit [] h = refl
behind_g-IsDigit (c ∷ []) h = refl
behind_g-IsDigit (c ∷ d ∷ s) ((p, q), h) =
    rw (behind_g-IsDigit (d ∷ s) h) (no_mark (c == b'_') (d == b'g') refl)
  where
    no_mark : (b e : Bool) → (c == b'_') ≡ b → (if b && e then some s else none) ≡ none
    no_mark false e r = refl
    no_mark true e r = let never : ⊥ = q (==→≡ c b'_' r) in elim never [ ]

from_hex_digits : (c : ℕ) (s : Text) → c ≢ b'+' → from_hex (c ∷ s) ≡ read_digits (c ∷ s) 0
unfolding from_hex
from_hex_digits c s h = by_sign (c == b'+') refl
  where
    by_sign :
        (b : Bool)
        → (c == b'+') ≡ b
        → (if b then (if is_empty s then none else read_digits s 0) else read_digits (c ∷ s) 0)
          ≡ read_digits (c ∷ s) 0
    by_sign false r = refl
    by_sign true r = let never : ⊥ = h (==→≡ c b'+' r) in elim never [ ]

from_hex-All : (s : Text) → All IsDigit s → is_empty s ≡ false → from_hex s ≡ read_digits s 0
from_hex-All [] h e = let never : ⊥ = cc in elim never [ ]
from_hex-All (c ∷ s) ((p, q), h) e = from_hex_digits c s p

is_empty-hex_from : (k n : ℕ) (s : Text) → is_empty s ≡ false → is_empty (hex_from k n s) ≡ false
unfolding hex_from
is_empty-hex_from zero n s h = h
is_empty-hex_from (suc k) n s h = is_empty-hex_from k (n / 16) (digit (n % 16) ∷ s) refl

hex-IsDigit : (n : ℕ) → All IsDigit (hex n)
hex-IsDigit n = hex_from-IsDigit 16 n [] tt

is_empty-hex : (n : ℕ) → is_empty (hex n) ≡ false
unfolding hex_from
is_empty-hex n = is_empty-hex_from 15 (n / 16) (digit (n % 16) ∷ []) refl

-- The number that the digits of a `u64` are read as is that number.
pub from_hex-hex : (n : ℕ) → n < 2 ^ 64 → from_hex (hex n) ≡ some n
unfolding read_digits
from_hex-hex n h =
    from_hex-All (hex n) (hex-IsDigit n) (is_empty-hex n)
    ∙ read_digits-hex_from 16 n [] (omega (arith, h)) h

no_mark_behind : (s : Text) → behind_g s ≡ none → behind_g (b'g' ∷ s) ≡ none
unfolding behind_g
no_mark_behind [] h = refl
no_mark_behind (c ∷ s) h = rw h

mark : (s : Text) → behind_g s ≡ none → behind_g (b'_' ∷ b'g' ∷ s) ≡ some s
unfolding behind_g
mark s h = ap (or_here b'_' (b'g' ∷ s)) (no_mark_behind s h)

over : (c : ℕ) (s value : Text) → behind_g s ≡ some value → behind_g (c ∷ s) ≡ some value
unfolding behind_g
over c s value h = ap (or_here c s) h

marked : (n : ℕ) → behind_g (codes "_g" ++ hex n) ≡ some (hex n)
marked n = mark (hex n) (behind_g-IsDigit (hex n) (hex-IsDigit n))

pub behind_g-ipv4_name : (d : Direction) (n : ℕ) → behind_g (ipv4_name d n) ≡ some (hex n)
unfolding ipv4_name
behind_g-ipv4_name Direction.inbound n =
    over _ _ _ (over _ _ _ (over _ _ _ (over _ _ _ (over _ _ _ (marked n)))))
behind_g-ipv4_name Direction.outbound n =
    over _ _ _ (over _ _ _ (over _ _ _ (over _ _ _ (over _ _ _ (over _ _ _ (marked n))))))

pub behind_g-ipv6_name : (d : Direction) (n : ℕ) → behind_g (ipv6_name d n) ≡ some (hex n)
unfolding ipv6_name
behind_g-ipv6_name Direction.inbound n =
    over _ _ _ (over _ _ _ (over _ _ _ (over _ _ _ (over _ _ _ (marked n)))))
behind_g-ipv6_name Direction.outbound n =
    over _ _ _ (over _ _ _ (over _ _ _ (over _ _ _ (over _ _ _ (over _ _ _ (marked n))))))
