-- ===== src/Xdp/Filled.antt =====
-- What a slot holds after `clear_slot` and after the callback of a reload (src/xdp.rs).
use nftblock.Prelude.{
  ℕ, ◌≡◌, refl, sym, ◌∙◌, subst, Bool, true, false, not, ◌&&◌, List, [], ◌∷◌, ◌==◌, arith, any,
  any_cong,
}
use nftblock.Prelude.Results.{Result, ok, err}
use nftblock.Prelude.Effects.{Eff, after, Done, after-Done, Done-mono, Done-all}
use nftblock.Xdp.Maps.{Key, same_key, MapLib, MapLaws, Kernel}
use nftblock.Xdp.{
  v4_of, v6_of, set_v4, set_v6, stored, v4_mut, v6_mut, remove_all, clear_trie, clear_slot,
}

-- Keys without those of a list.
abbrev without : List Key → (Key → Bool) → Key → Bool
without keys p j = p j && not (any (same_key j) keys)

same_key_refl : (j : Key) → same_key j j ≡ true
same_key_refl j = ground arith

-- A list of keys has none but its own.
any-without :
    (p : Key → Bool) (xs ys : List Key)
    → ((j : Key) → any (same_key j) xs ≡ true → any (same_key j) ys ≡ true)
    → any (without ys p) xs ≡ false
any-without p [] ys h = refl
any-without p (x ∷ xs) ys h = ground (
  arith,
  h x (ground (arith, same_key_refl x)),
  any-without p xs ys (λ j m. h j (ground (arith, m))),
)

module _ (lib : MapLib) (laws : MapLaws lib) where
  remove_all-Done :
      (keys : List Key) (t : lib.Trie) (p : Key → Bool)
      → Done
          (λ _ t'. any p (lib.contents t') ≡ any (without keys p) (lib.contents t))
          (remove_all lib keys t)
  unfolding remove_all
  remove_all-Done [] t p = any_cong p (without [] p) (lib.contents t) (λ j. ground arith)
  remove_all-Done (key ∷ keys) t p =
      after-Done
        (λ _ t'.
          any (without keys p) (lib.contents t')
          ≡ any (λ j. without keys p j && not (same_key j key)) (lib.contents t))
        (λ _ t'. any p (lib.contents t') ≡ any (without (key ∷ keys) p) (lib.contents t))
        (lib.remove key t) _ (laws.any-remove key t (without keys p))
        λ _ u h.
          Done-mono (λ _ t'. any p (lib.contents t') ≡ any (without keys p) (lib.contents u))
            (λ _ t'. any p (lib.contents t') ≡ any (without (key ∷ keys) p) (lib.contents t))
            (remove_all lib keys u)
            (λ _ t' g. g ∙ h ∙ any_cong _ _ (lib.contents t) (λ j. ground arith))
            (remove_all-Done keys u p)

  -- The map has no key.
  abbrev pub NoKeys : lib.Trie → Type 0
  NoKeys t = (p : Key → Bool) → any p (lib.contents t) ≡ false

  all_removed :
      (keys : List Key) (t : lib.Trie)
      → lib.keys t ≡ ok keys
      → (p : Key → Bool) → any (without keys p) (lib.contents t) ≡ false
  all_removed keys t e p =
      any-without p (lib.contents t) keys (λ j m. laws.any-keys t keys (same_key j) e ∙ m)

  clear_trie-Done : (t : lib.Trie) → Done (λ _ t'. NoKeys t') (clear_trie lib t)
  unfolding clear_trie
  clear_trie-Done t = cleared (lib.keys t) refl
    where
      cleared :
          (r : Result lib.MapError (List Key))
          → lib.keys t ≡ r
          → Done (λ _ t'. NoKeys t') (after (r, t) (remove_all lib))
      cleared (ok keys) e =
          Done-all (λ p _ t'. any p (lib.contents t') ≡ false) (remove_all lib keys t)
            λ p.
              Done-mono (λ _ t'. any p (lib.contents t') ≡ any (without keys p) (lib.contents t))
                (λ _ t'. any p (lib.contents t') ≡ false) (remove_all lib keys t)
                (λ _ t' g. g ∙ all_removed keys t e p) (remove_all-Done keys t p)
      cleared (err x) e = tt

module _ (lib : MapLib) where
  v4_of-set_v4 : (c : Bool) (k : Kernel lib) (t : lib.Trie) → v4_of lib c (set_v4 lib c k t) ≡ t
  unfolding v4_of set_v4
  v4_of-set_v4 true k t = refl
  v4_of-set_v4 false k t = refl

  v6_of-set_v4 :
      (c : Bool) (k : Kernel lib) (t : lib.Trie) → v6_of lib c (set_v4 lib c k t) ≡ v6_of lib c k
  unfolding v6_of set_v4
  v6_of-set_v4 true k t = refl
  v6_of-set_v4 false k t = refl

  v6_of-set_v6 : (c : Bool) (k : Kernel lib) (t : lib.Trie) → v6_of lib c (set_v6 lib c k t) ≡ t
  unfolding v6_of set_v6
  v6_of-set_v6 true k t = refl
  v6_of-set_v6 false k t = refl

  v4_of-set_v6 :
      (c : Bool) (k : Kernel lib) (t : lib.Trie) → v4_of lib c (set_v6 lib c k t) ≡ v4_of lib c k
  unfolding v4_of set_v6
  v4_of-set_v6 true k t = refl
  v4_of-set_v6 false k t = refl

  stored-Done :
      {A : Type 0} (P : lib.Trie → Type 0) (Q : Kernel lib → Type 0) (set : lib.Trie → Kernel lib)
      (r : Result lib.MapError A × lib.Trie)
      → ((t : lib.Trie) → P t → Q (set t))
      → Done (λ _. P) r
      → Done (λ _. Q) (stored lib set r)
  stored-Done P Q set (ok a, t) f h = f t h
  stored-Done P Q set (err e, t) f h = tt

module _ (lib : MapLib) (c : Bool) (slot : ℕ) (this : (slot == 0) ≡ c) where
  -- An operation on one map of the slot leaves the other.
  pub v4_mut-Done :
      {A : Type 0} (P : lib.Trie → Type 0) (m : Eff lib.Trie lib.MapError A) (k : Kernel lib)
      → Done (λ _. P) (m (v4_of lib c k))
      → Done (λ _ k'. P (v4_of lib c k') × (v6_of lib c k' ≡ v6_of lib c k)) (v4_mut lib slot m k)
  unfolding v4_mut
  v4_mut-Done P m k h = rw this (
      stored-Done lib P (λ k'. P (v4_of lib c k') × (v6_of lib c k' ≡ v6_of lib c k))
        (set_v4 lib c k) (m (v4_of lib c k))
        (λ t p. (subst P (sym (v4_of-set_v4 lib c k t)) p, v6_of-set_v4 lib c k t)) h)

  pub v6_mut-Done :
      {A : Type 0} (P : lib.Trie → Type 0) (m : Eff lib.Trie lib.MapError A) (k : Kernel lib)
      → Done (λ _. P) (m (v6_of lib c k))
      → Done (λ _ k'. P (v6_of lib c k') × (v4_of lib c k' ≡ v4_of lib c k)) (v6_mut lib slot m k)
  unfolding v6_mut
  v6_mut-Done P m k h = rw this (
      stored-Done lib P (λ k'. P (v6_of lib c k') × (v4_of lib c k' ≡ v4_of lib c k))
        (set_v6 lib c k) (m (v6_of lib c k))
        (λ t p. (subst P (sym (v6_of-set_v6 lib c k t)) p, v4_of-set_v6 lib c k t)) h)

-- Both maps of a slot are empty.
pub record Cleared (lib : MapLib) (laws : MapLaws lib) (c : Bool) (k : Kernel lib) : Type 0 where
  pub v4 : NoKeys lib laws (v4_of lib c k)
  pub v6 : NoKeys lib laws (v6_of lib c k)

pub clear_slot-Done :
    (lib : MapLib) (laws : MapLaws lib) (c : Bool) (slot : ℕ) (k : Kernel lib)
    → (slot == 0) ≡ c
    → Done (λ _. Cleared lib laws c) (clear_slot lib slot k)
unfolding clear_slot
clear_slot-Done lib laws c slot k this =
    after-Done (λ _ k'. NoKeys lib laws (v4_of lib c k') × (v6_of lib c k' ≡ v6_of lib c k))
      (λ _. Cleared lib laws c) (v4_mut lib slot (clear_trie lib) k) _
      (v4_mut-Done lib c slot this (NoKeys lib laws) (clear_trie lib) k
        (clear_trie-Done lib laws (v4_of lib c k)))
      λ _ l (h, _).
        Done-mono (λ _ k'. NoKeys lib laws (v6_of lib c k') × (v4_of lib c k' ≡ v4_of lib c l))
          (λ _. Cleared lib laws c) (v6_mut lib slot (clear_trie lib) l)
          (λ _ m (g, e). record { v4 = subst (NoKeys lib laws) (sym e) h; v6 = g })
          (v6_mut-Done lib c slot this (NoKeys lib laws) (clear_trie lib) l
            (clear_trie-Done lib laws (v6_of lib c l)))
