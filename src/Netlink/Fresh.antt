-- ===== src/Netlink/Fresh.antt =====
-- The sets that src/netlink.rs stages are new: no set that it has seen has the name of one.
use nftblock.Prelude.{
  ℕ, ◌+◌, ◌-◌, ◌^◌, ◌≤◌, ◌<◌, min, max, ◌≡◌, sym, ap, ◌∙◌, true, false, Option, none, some, List,
  [], ◌∷◌, ltb, any, arith, inl, inr, Bool-cases,
}
use nftblock.Text.{Text}
use nftblock.Word.{checked_add}
use nftblock.Zones.{Direction, same}
use nftblock.Zones.Expansion.{same→≡}
use nftblock.Netlink.Generations.{
  hex, from_hex, behind_g, observe_value, observe_suffix, observe_generations, ipv4_name, ipv6_name,
  from_hex-hex, behind_g-ipv4_name, behind_g-ipv6_name,
}

observe_value-le : (next : ℕ) (o : Option ℕ) → next ≤ observe_value next o
observe_value-le next none = omega arith
observe_value-le next (some v) = omega arith

observe_suffix-le : (next : ℕ) (o : Option Text) → next ≤ observe_suffix next o
observe_suffix-le next none = omega arith
observe_suffix-le next (some s) = observe_value-le next (from_hex s)

observe_generations-le : (names : List Text) (next : ℕ) → next ≤ observe_generations names next
unfolding observe_generations
observe_generations-le [] next = omega arith
observe_generations-le (name ∷ names) next = omega (
  arith,
  observe_suffix-le next (behind_g name),
  observe_generations-le names (observe_suffix next (behind_g name)),
)

-- A name with a number is left behind.
observed :
    (names : List Text) (next : ℕ) (name s : Text) (v : ℕ)
    → behind_g name ≡ some s
    → from_hex s ≡ some v
    → any (same name) names ≡ true
    → min (v + 1) (2 ^ 64 - 1) ≤ observe_generations names next
unfolding observe_generations
observed [] next name s v b f h = let never : ⊥ = cc in elim never [ ]
observed (other ∷ names) next name s v b f h = elim (Bool-cases (same name other)) [
  | inl e ↦
      let here : observe_suffix next (behind_g other) ≡ max next (min (v + 1) (2 ^ 64 - 1)) =
        ap (λ n. observe_suffix next (behind_g n)) (sym (same→≡ name other e))
        ∙ ap (observe_suffix next) b
        ∙ ap (observe_value next) f in
      omega (arith, here, observe_generations-le names (observe_suffix next (behind_g other)))
  | inr e ↦
      observed names (observe_suffix next (behind_g other)) name s v b f (ground (arith, e, h))
]

counted : (n n' : ℕ) → checked_add 64 n 1 ≡ some n' → n + 1 < 2 ^ 64
counted n n' h = elim (Bool-cases (ltb (n + 1) (2 ^ 64))) [
  | inl e ↦ ground (arith, e)
  | inr e ↦ let never : ⊥ = ground (arith, e, h) in elim never [ ]
]

unseen :
    (names : List Text) (next : ℕ) (name : Text)
    → observe_generations names next + 1 < 2 ^ 64
    → behind_g name ≡ some (hex (observe_generations names next))
    → any (same name) names ≡ false
unseen names next name b h = elim (Bool-cases (any (same name) names)) [
  | inl e ↦
      let n : ℕ = observe_generations names next in
      let le = observed names next name (hex n) n h (from_hex-hex n (omega (arith, b))) e in
      let never : ⊥ = omega (arith, le, b) in elim never [ ]
  | inr e ↦ e
]

-- When the counter has observed a list of names and the next number can still be counted up, none of
-- these names is the name of a set of the generation with that number, in either direction.
pub observe_generations_fresh :
    (names : List Text) (next n' : ℕ) (d : Direction)
    → checked_add 64 (observe_generations names next) 1 ≡ some n'
    → (any (same (ipv4_name d (observe_generations names next))) names ≡ false)
      × (any (same (ipv6_name d (observe_generations names next))) names ≡ false)
observe_generations_fresh names next n' d h =
    let b = counted (observe_generations names next) n' h in
    (unseen names next _ b (behind_g-ipv4_name d _), unseen names next _ b (behind_g-ipv6_name d _))
