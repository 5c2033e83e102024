-- ===== src/Netlink/Obsolete.antt =====
-- Which sets `cleanup_obsolete` of src/netlink.rs deletes.
use nftblock.Prelude.{
  ℕ, ◌≡◌, refl, ap, ◌∙◌, Bool, true, false, not, ◌&&◌, ◌||◌, Option, none, some, List, any, arith,
}
use nftblock.Text.{Text}
use nftblock.Zones.{Direction, same}
use nftblock.Netlink.{DirectionGeneration, ActiveGenerations, iter}
use nftblock.Netlink.Generations.{ipv4_name, ipv6_name}
use nftblock.Netlink.Native.{is_generation, kept_names, layout_marker, obsolete}
use nftblock.Netlink.Healthy.{any-obsolete}

-- A name is that of one of the two sets of a generation, or of those that are active.
abbrev pub has_set : Option DirectionGeneration → Text → Bool
has_set none name = false
has_set (some g) name = same name g.ipv4_set || same name g.ipv6_set

abbrev pub owns : ActiveGenerations → Text → Bool
owns active name = has_set active.inbound name || has_set active.outbound name

owned :
    (name : Text) (i o : Option DirectionGeneration)
    → any (same name) (kept_names (iter (record { inbound = i; outbound = o })))
      ≡ (has_set i name || has_set o name)
unfolding iter kept_names
owned name none none = refl
owned name none (some g) = ground arith
owned name (some f) none = ground arith
owned name (some f) (some g) = ground arith

obsolete_lem :
    (active : ActiveGenerations) (names : List Text) (name : Text)
    → is_generation name ≡ true
    → any (same name) (obsolete (kept_names (iter active)) names)
      ≡ (any (same name) names && not (owns active name))
obsolete_lem active names name h =
    any-obsolete (kept_names (iter active)) names name
    ∙ ap (λ b. any (same name) names && (b && not (any (same name) (kept_names (iter active))))) h
    ∙ ap (λ b. any (same name) names && not b) (owned name active.inbound active.outbound)

ipv4_name-lem : (d : Direction) (n : ℕ) → is_generation (ipv4_name d n) ≡ true
unfolding is_generation ipv4_name
ipv4_name-lem Direction.inbound n = refl
ipv4_name-lem Direction.outbound n = refl

ipv6_name-lem : (d : Direction) (n : ℕ) → is_generation (ipv6_name d n) ≡ true
unfolding is_generation ipv6_name
ipv6_name-lem Direction.inbound n = refl
ipv6_name-lem Direction.outbound n = refl

and_false : (a : Bool) → (a && false) ≡ false
and_false true = refl
and_false false = refl

marker_kept : (keep names : List Text) → any (same layout_marker) (obsolete keep names) ≡ false
unfolding is_generation
marker_kept keep names =
    any-obsolete keep names layout_marker ∙ and_false (any (same layout_marker) names)

-- Of the names that the kernel has, the IPv4 and the IPv6 set of any direction and number are deleted
-- as obsolete exactly when they are not one of the two sets of an active generation; the marker of
-- the layout never is.
pub obsolete-iter :
    (active : ActiveGenerations) (names : List Text) (d : Direction) (n : ℕ)
    → (any (same (ipv4_name d n)) (obsolete (kept_names (iter active)) names)
        ≡ (any (same (ipv4_name d n)) names && not (owns active (ipv4_name d n))))
      × (any (same (ipv6_name d n)) (obsolete (kept_names (iter active)) names)
          ≡ (any (same (ipv6_name d n)) names && not (owns active (ipv6_name d n))))
      × (any (same layout_marker) (obsolete (kept_names (iter active)) names) ≡ false)
obsolete-iter active names d n = (
  obsolete_lem active names (ipv4_name d n) (ipv4_name-lem d n),
  obsolete_lem active names (ipv6_name d n) (ipv6_name-lem d n),
  marker_kept (kept_names (iter active)) names,
)
