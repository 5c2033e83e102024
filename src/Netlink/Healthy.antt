-- ===== src/Netlink/Healthy.antt =====
-- What the health and the obsolete sets of `NftnlBackend` (src/netlink.rs) tell.
use nftblock.Prelude.{
  ℕ, ◌≡◌, refl, sym, ap, ◌∙◌, Bool, true, false, not, ◌&&◌, ◌||◌, Option, none, some, List, [], ◌∷◌,
  if◌then◌else◌, any, All, ◌⊎◌, inl, inr, arith, ==→≡,
}
use nftblock.Text.{Text}
use nftblock.Zones.{same}
use nftblock.Zones.Expansion.{same→≡}
use nftblock.Netlink.{DirectionGeneration, ActiveGenerations, iter, Health}
use nftblock.Netlink.Native.{
  Inventory, count_of, has_marker, inspect_count, inspect, inspect_direction, health_of,
  health_from, Sound, is_generation, obsolete, is_obsolete,
}

-- Both sets of a generation are sound.
abbrev pub SoundSets : Inventory → DirectionGeneration → Type 0
SoundSets sets g = Sound sets g.ipv4_set g.ipv4_intervals × Sound sets g.ipv6_set g.ipv6_intervals

count-Sound :
    (expected : ℕ) (o : Option (Option ℕ))
    → (inspect_count expected o).0 ≡ false
    → (o ≡ some (some expected)) ⊎ (o ≡ some none)
count-Sound expected none h = let never : ⊥ = cc in elim never [ ]
count-Sound expected (some none) h = inr refl
count-Sound expected (some (some n)) h =
    inl (ap (λ m. some (some m)) (==→≡ n expected (ground (arith, h))))

inspect_direction-Sound :
    (sets : Inventory) (g : DirectionGeneration)
    → (inspect_direction sets (some g)).0 ≡ false
    → SoundSets sets g
unfolding inspect_direction inspect
inspect_direction-Sound sets g h = (
  count-Sound g.ipv4_intervals (count_of g.ipv4_set sets) (ground (arith, h)),
  count-Sound g.ipv6_intervals (count_of g.ipv6_set sets) (ground (arith, h)),
)

abbrev SoundIn : Inventory → Option DirectionGeneration → Type 0
SoundIn sets none = Unit
SoundIn sets (some g) = SoundSets sets g

of_direction :
    (sets : Inventory) (o : Option DirectionGeneration)
    → (inspect_direction sets o).0 ≡ false
    → SoundIn sets o
of_direction sets none h = tt
of_direction sets (some g) h = inspect_direction-Sound sets g h

is_healthy : (a b : Bool) → health_of a b ≡ Health.healthy → (a ≡ false) × (b ≡ false)
is_healthy false false h = (refl, refl)
is_healthy true false h = let never : ⊥ = cc in elim never [ ]
is_healthy false true h = let never : ⊥ = cc in elim never [ ]
is_healthy true true h = let never : ⊥ = cc in elim never [ ]

with_marker :
    (m : Bool) (h : Health)
    → (if m then h else Health.layout_damaged) ≡ Health.healthy
    → (m ≡ true) × (h ≡ Health.healthy)
with_marker true h e = (refl, e)
with_marker false h e = let never : ⊥ = cc in elim never [ ]

iter-Sound :
    (sets : Inventory) (o p : Option DirectionGeneration)
    → SoundIn sets o
    → SoundIn sets p
    → All (SoundSets sets) (iter (record { inbound = o; outbound = p }))
unfolding iter
iter-Sound sets none none h k = tt
iter-Sound sets none (some g) h k = (k, tt)
iter-Sound sets (some g) none h k = (h, tt)
iter-Sound sets (some f) (some g) h k = (h, (k, tt))

-- When the health is good, the marker is there, and each set of each active generation is there with
-- the expected number of elements, if the kernel tells the number at all.
pub health_from-Sound :
    (sets : Inventory) (active : ActiveGenerations)
    → health_from sets active ≡ Health.healthy
    → (has_marker sets ≡ true) × All (SoundSets sets) (iter active)
unfolding health_from
health_from-Sound sets active h =
    let (m, e) = with_marker (has_marker sets) _ h in
    let (i, o) =
      is_healthy (inspect_direction sets active.inbound).0
        (inspect_direction sets active.outbound).0 e in
    (
      m,
      iter-Sound sets active.inbound active.outbound (of_direction sets active.inbound i)
          (of_direction sets active.outbound o),
    )

filter_step :
    (name other : Text) (rest : List Text) (b : Bool)
    → any (same name) (if b then other ∷ rest else rest)
      ≡ ((b && same name other) || any (same name) rest)
filter_step name other rest true = refl
filter_step name other rest false = refl

met : (a o : Bool) → ((o && true) || (a && o)) ≡ ((true || a) && o)
met a true = refl
met true false = refl
met false false = refl

passed : (o r : Bool) → ((o && false) || r) ≡ r
passed true r = refl
passed false r = refl

-- A name is obsolete exactly when it is among the names of the sets, is the name of a generation, and
-- is none of those that are kept.
pub any-obsolete :
    (keep names : List Text) (name : Text)
    → any (same name) (obsolete keep names)
      ≡ (any (same name) names && (is_generation name && not (any (same name) keep)))
unfolding obsolete
any-obsolete keep [] name = refl
any-obsolete keep (other ∷ names) name =
    filter_step name other (obsolete keep names) (is_obsolete keep other)
    ∙ ap (λ r. (is_obsolete keep other && same name other) || r) (any-obsolete keep names name)
    ∙ by_name (same name other) refl
  where
    by_name :
        (b : Bool)
        → same name other ≡ b
        → ((is_obsolete keep other && b) || (any (same name) names && is_obsolete keep name))
          ≡ ((b || any (same name) names) && is_obsolete keep name)
    by_name true e =
        ap (λ o. (o && true) || (any (same name) names && is_obsolete keep name))
          (ap (is_obsolete keep) (sym (same→≡ name other e)))
        ∙ met (any (same name) names) (is_obsolete keep name)
    by_name false e = passed (is_obsolete keep other) _
