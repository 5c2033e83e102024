-- ===== src/Config/Conditions.antt =====
-- What is asked of parts of a configuration (src/config.rs), and how its tests tell it.
use nftblock.Prelude.{
  ℕ, ◌≤◌, ◌≡◌, refl, Bool, true, false, not, ◌&&◌, ◌||◌, List, [], ◌∷◌, ap, Option, none, some, All,
  ◌⊎◌, inl, inr, leb, Bool-cases, ==→≡, ◌==◌, any, arith,
}
use nftblock.Text.{Text, is_empty}
use nftblock.Zones.{Direction, Chain, ResolvedRule, same}
use nftblock.Config.{Config, table_char, same_direction}
use nftblock.Config.Validate.{overlaps, input_or_forward}

-- An ASCII letter or digit, `_` or `-`.
abbrev pub IsTableChar : ℕ → Type 0
IsTableChar c =
    ((b'0' ≤ c) × (c ≤ b'9'))
    ⊎ ((b'A' ≤ c) × (c ≤ b'Z'))
    ⊎ ((b'a' ≤ c) × (c ≤ b'z'))
    ⊎ (c ≡ b'_')
    ⊎ (c ≡ b'-')

abbrev pub Given : {A : Type 0} → Option A → Type 0
Given none = ⊥
Given (some a) = Unit

-- The file of a direction is given.
abbrev pub Listed : {P : Type 0} → Config P → Direction → Type 0
Listed config Direction.inbound = Given config.files.inbound
Listed config Direction.outbound = Given config.files.outbound

-- The ingress interfaces of a rule of nftables are named, and none is among those of XDP.
abbrev pub Disjoint : List Text → List Text → Type 0
Disjoint interfaces ingress =
    (is_empty ingress ≡ false) × All (λ name. any (same name) interfaces ≡ false) ingress

-- Only a rule for what comes in by an interface is concerned.
abbrev pub ApartFor : Direction → Chain → List Text → List Text → Type 0
ApartFor Direction.outbound chain interfaces ingress = Unit
ApartFor Direction.inbound Chain.output interfaces ingress = Unit
ApartFor Direction.inbound Chain.input interfaces ingress = Disjoint interfaces ingress
ApartFor Direction.inbound Chain.forward interfaces ingress = Disjoint interfaces ingress

abbrev pub Apart : List Text → ResolvedRule → Type 0
Apart interfaces rule = ApartFor rule.blocklist rule.chain interfaces rule.ingress

or_right : (a b : Bool) → b ≡ true → (a || b) ≡ true
or_right true b h = refl
or_right false b h = h

same_direction_refl : (d : Direction) → same_direction d d ≡ true
same_direction_refl Direction.inbound = refl
same_direction_refl Direction.outbound = refl

module _ {A : Type 0} where
  pub All-of_any :
      (p : A → Bool) (Q : A → Type 0) (xs : List A)
      → ((x : A) → p x ≡ false → Q x)
      → any p xs ≡ false
      → All Q xs
  All-of_any p Q [] f h = tt
  All-of_any p Q (x ∷ xs) f h = (f x (ground (arith, h)), All-of_any p Q xs f (ground (arith, h)))

  -- When a direction that a rule has implies `Q`, then `Q` holds of that of each rule.
  pub directions-All :
      (direction : A → Direction) (Q : Direction → Type 0) (xs : List A)
      → ((d : Direction) → any (λ x. same_direction (direction x) d) xs ≡ true → Q d)
      → All (λ x. Q (direction x)) xs
  directions-All direction Q [] k = tt
  directions-All direction Q (x ∷ xs) k = (
    k (direction x) (
        ap (λ b. b || any (λ y. same_direction (direction y) (direction x)) xs)
          (same_direction_refl (direction x))),
    directions-All direction Q xs λ d h. k d (or_right (same_direction (direction x) d) _ h),
  )

disjoint :
    (interfaces ingress : List Text)
    → (is_empty ingress || any (λ name. any (same name) interfaces) ingress) ≡ false
    → Disjoint interfaces ingress
disjoint interfaces ingress h = (
  ground (arith, h),
  All-of_any (λ name. any (same name) interfaces) _ ingress (λ name g. g) (ground (arith, h)),
)

pub is_table_char : (c : ℕ) → not (table_char c) ≡ false → IsTableChar c
is_table_char c h = elim (Bool-cases (leb b'0' c && leb c b'9')) [
  | inl p ↦ inl (ground (arith, p), ground (arith, p))
  | inr p ↦ elim (Bool-cases (leb b'A' c && leb c b'Z')) [
    | inl q ↦ inr (inl (ground (arith, q), ground (arith, q)))
    | inr q ↦ elim (Bool-cases (leb b'a' c && leb c b'z')) [
      | inl r ↦ inr (inr (inl (ground (arith, r), ground (arith, r))))
      | inr r ↦ elim (Bool-cases (c == b'_')) [
        | inl t ↦ inr (inr (inr (inl (==→≡ c b'_' t))))
        | inr t ↦ inr (inr (inr (inr (==→≡ c b'-' (ground (arith, h, p, q, r, t))))))
      ]
    ]
  ]
]

pub apart :
    (interfaces : List Text) (rule : ResolvedRule)
    → overlaps interfaces rule ≡ false
    → Apart interfaces rule
unfolding overlaps
apart interfaces rule h = by_kind rule.blocklist rule.chain h
  where
    by_kind :
        (d : Direction) (c : Chain)
        → (same_direction d Direction.inbound
            && input_or_forward c
            && (is_empty rule.ingress || any (λ name. any (same name) interfaces) rule.ingress))
          ≡ false
        → ApartFor d c interfaces rule.ingress
    by_kind Direction.outbound c g = tt
    by_kind Direction.inbound Chain.output g = tt
    by_kind Direction.inbound Chain.input g = disjoint interfaces rule.ingress g
    by_kind Direction.inbound Chain.forward g = disjoint interfaces rule.ingress g
