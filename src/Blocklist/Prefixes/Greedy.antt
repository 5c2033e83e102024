-- ===== src/Blocklist/Prefixes/Greedy.antt =====
-- Both loops take the largest CIDR that is aligned and fits, in every round.
use nftblock.Prelude.{
  ℕ, zero, suc, ◌+◌, ◌-◌, ◌%◌, ◌^◌, ◌≤◌, ◌<◌, ◌≡◌, refl, inl, inr, true, false, ◌&&◌, Option, none,
  some, arith, ltb, ◌==◌, ltb→lt, ltb→le, Bool-cases, subst, ap,
}
use native.Mathlib.Nat.{add-mod_right, mod-eq_of_lt}
use nftblock.Prelude.Powers.{two_pow_pos, le_of_two_pow}
use nftblock.Word.{wrapping_add, wrapping_sub, leading_zeros}
use nftblock.Word.Zeros.{leading_zeros-lt}
use nftblock.Blocklist.{
  AddressInterval, interval_end, interval_prefixes, v4_host_bits, v4_loop, v6_host_bits, v6_loop,
  u128_max,
}
use nftblock.Blocklist.Prefixes.{
  IsInterval, IsWord, stop_of, interval_width, interval_first, interval_stop,
}
use nftblock.Blocklist.Prefixes.Largest.{
  IsLargest, IsGreedy, alignment, IsLargest-min, IsGreedy-cons,
}

v4_host_bits-IsLargest :
    (start end : ℕ)
    → start ≤ end
    → end < 2 ^ 32
    → IsLargest start (suc end) (v4_host_bits start end)
unfolding v4_host_bits alignment
v4_host_bits-IsLargest start end le bound =
    let remaining : wrapping_add 64 (wrapping_sub 64 end start) 1 ≡ suc end - start = omega arith in
    rw remaining (
      let fit : wrapping_sub 32 63 (leading_zeros 64 (suc end - start))
          ≡ 64 - 1 - leading_zeros 64 (suc end - start) =
        omega (arith, leading_zeros-lt 64 (suc end - start) (omega arith) (omega arith)) in
      rw fit (
        IsLargest-min 32 64 start (suc end) (suc end - start) (omega arith) (omega arith)
          (omega arith) (omega arith)))

-- The first loop is greedy, and its fuel does not run out.
v4_loop-IsGreedy :
    (fuel start end : ℕ)
    → start ≤ end
    → end < 2 ^ 32
    → end < start + fuel
    → IsGreedy 32 start (suc end) (v4_loop fuel start end)
unfolding v4_loop
v4_loop-IsGreedy zero start end le bound enough = absurd (omega arith)
v4_loop-IsGreedy (suc fuel) start end le bound enough =
    let h = v4_host_bits start end in
    let l = v4_host_bits-IsLargest start end le bound in
    let next : wrapping_add 64 start (2 ^ h) ≡ start + 2 ^ h = omega (arith, l.fits) in
    IsGreedy-cons 32 h start (suc end) _ _ (omega arith) l refl refl refl (
      rw next (elim (Bool-cases (ltb end (start + 2 ^ h))) [
        | inl e ↦ rw e (omega (arith, l.fits, ltb→lt _ _ e))
        | inr e ↦ rw e (
            let low : (start + 2 ^ h) % 2 ^ 32 ≡ start + 2 ^ h = omega (arith, ltb→le _ _ e) in
            rw low (
              v4_loop-IsGreedy fuel (start + 2 ^ h) end (ltb→le _ _ e) bound
                (omega (arith, two_pow_pos h))))
      ]))

-- Below the whole space, what remains fits 128 bits.
v6_host_bits-IsLargest :
    (start end : ℕ)
    → start ≤ end
    → end < 2 ^ 128
    → end < start + u128_max
    → IsLargest start (suc end) (v6_host_bits start end)
unfolding v6_host_bits alignment
v6_host_bits-IsLargest start end le bound part =
    let remaining : wrapping_add 128 (wrapping_sub 128 end start) 1 ≡ suc end - start =
      omega arith in
    rw remaining (
      let fit : wrapping_sub 32 127 (leading_zeros 128 (suc end - start))
          ≡ 128 - 1 - leading_zeros 128 (suc end - start) =
        omega (arith, leading_zeros-lt 128 (suc end - start) (omega arith) (omega arith)) in
      rw fit (
        IsLargest-min 128 128 start (suc end) (suc end - start) (omega arith) (omega arith)
          (omega arith) (omega arith)))

whole_space : IsLargest 0 (2 ^ 128) 128
whole_space = record {
  aligned = (0, refl);
  fits = omega arith;
  largest = λ k m fits. le_of_two_pow k 128 (omega arith);
}

-- The test for the whole space, read.
whole_space_test :
    (start end : ℕ) → (start == 0 && end == u128_max) ≡ true → (start ≡ 0) × (end ≡ u128_max)
whole_space_test start end h = ground arith

part_space_test :
    (start end : ℕ)
    → start ≤ end
    → end < 2 ^ 128
    → (start == 0 && end == u128_max) ≡ false
    → end < start + u128_max
part_space_test start end le bound h = ground arith

-- The second loop is greedy, and its fuel does not run out.
v6_loop-IsGreedy :
    (fuel start end : ℕ)
    → start ≤ end
    → end < 2 ^ 128
    → end < start + fuel
    → IsGreedy 128 start (suc end) (v6_loop fuel start end)
unfolding v6_loop
v6_loop-IsGreedy zero start end le bound enough = absurd (omega arith)
v6_loop-IsGreedy (suc fuel) start end le bound enough =
    elim (Bool-cases (start == 0 && end == u128_max)) [
      | inl whole ↦ rw whole (
          let (at, to) = whole_space_test start end whole in
          rw (at, to)
            (
              refl,
              record { family = refl; fits = omega arith; aligned = (0, refl) },
              whole_space,
              refl,
            ))
      | inr part ↦ rw part (
          let h = v6_host_bits start end in
          let l =
            v6_host_bits-IsLargest start end le bound (part_space_test start end le bound part) in
          IsGreedy-cons 128 h start (suc end) _ _ (omega arith) l refl refl refl
            (elim (Bool-cases (ltb (start + 2 ^ h) (2 ^ 128))) [
              | inl e ↦ rw e (elim (Bool-cases (ltb end (start + 2 ^ h))) [
                | inl past ↦ rw past (omega (arith, l.fits, ltb→lt _ _ past))
                | inr more ↦ rw more (
                    v6_loop-IsGreedy fuel (start + 2 ^ h) end (ltb→le _ _ more) bound
                      (omega (arith, two_pow_pos h)))
              ])
              | inr e ↦ rw e (omega (arith, l.fits, ltb→le _ _ e))
            ]))
    ]

v4_loop_to :
    (fuel start end stop : ℕ)
    → suc end ≡ stop
    → start < stop
    → stop ≤ 2 ^ 32
    → end < start + fuel
    → IsGreedy 32 start stop (v4_loop fuel start end)
v4_loop_to fuel start end stop e lt bound enough =
    subst (λ x. IsGreedy 32 start x (v4_loop fuel start end)) e
      (v4_loop-IsGreedy fuel start end (omega arith) (omega arith) enough)

v6_loop_to :
    (fuel start end stop : ℕ)
    → suc end ≡ stop
    → start < stop
    → stop ≤ 2 ^ 128
    → end < start + fuel
    → IsGreedy 128 start stop (v6_loop fuel start end)
v6_loop_to fuel start end stop e lt bound enough =
    subst (λ x. IsGreedy 128 start x (v6_loop fuel start end)) e
      (v6_loop-IsGreedy fuel start end (omega arith) (omega arith) enough)

-- The inclusive end lies one address before the stop.
interval_end-suc :
    (w : ℕ) (after_last : Option ℕ)
    → 0 < stop_of w after_last
    → IsWord w after_last
    → suc (interval_end w after_last) ≡ stop_of w after_last
interval_end-suc w none pos word = omega arith
interval_end-suc w (some a) pos word =
    let shift : a + 2 ^ w - 1 ≡ a - 1 + 2 ^ w = omega arith in
    omega (
      arith,
      ap (λ x. x % 2 ^ w) shift,
      add-mod_right (a - 1) (2 ^ w),
      mod-eq_of_lt {n = a - 1} {m = 2 ^ w} (omega arith),
    )

stop_of-le : (w : ℕ) (after_last : Option ℕ) → IsWord w after_last → stop_of w after_last ≤ 2 ^ w
stop_of-le w none word = omega arith
stop_of-le w (some a) word = omega arith

-- Both loops, over the interval that they are given.
pub interval_prefixes-IsGreedy :
    (i : AddressInterval)
    → IsInterval i
    → IsGreedy (interval_width i) (interval_first i) (interval_stop i) (interval_prefixes i)
unfolding interval_prefixes
interval_prefixes-IsGreedy (AddressInterval.v4 first after_last) h =
    let to = interval_end-suc 32 after_last (omega (arith, h.holds_one)) h.is_end in
    let bound = stop_of-le 32 after_last h.is_end in
    v4_loop_to (2 ^ 32) first (interval_end 32 after_last) (stop_of 32 after_last) to h.holds_one
      bound (omega arith)
interval_prefixes-IsGreedy (AddressInterval.v6 first after_last) h =
    let to = interval_end-suc 128 after_last (omega (arith, h.holds_one)) h.is_end in
    let bound = stop_of-le 128 after_last h.is_end in
    v6_loop_to (2 ^ 128) first (interval_end 128 after_last) (stop_of 128 after_last) to h.holds_one
      bound (omega arith)
