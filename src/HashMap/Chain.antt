-- ===== src/HashMap/Chain.antt =====
-- One chain of the map: what it holds under a key, and how the three walks change that.
use dionysus.Prelude.{
  ℕ, ◌+◌, ◌≤◌, ◌≡◌, refl, Bool, true, false, Option, none, some, List, [], ◌∷◌, ◌++◌, arith,
  if◌then◌else◌,
}
use dionysus.Prelude.Str.{Str, str_eq, str_eq_iff, str_eq_symm}
use dionysus.HashMap.{Entry, chain_has, chain_find, chain_remove}

-- the value under `key`
unfoldable pub lookup : Str → List Entry → Option ℕ
lookup key [] = none
lookup key (x ∷ c) = if str_eq key x.key then some x.value else lookup key c

-- how many entries have the key
unfoldable pub count : Str → List Entry → ℕ
count key [] = 0
count key (x ∷ c) = (if str_eq key x.key then 1 else 0) + count key c

abbrev pub is_some {ℓ} : {A : Type ℓ} → Option A → Bool
is_some none = false
is_some (some a) = true

-- a `void *` result: NULL where there is no value
abbrev pub or_null : Option ℕ → ℕ
or_null none = 0
or_null (some v) = v

pub chain_has-lookup : (key : Str) (c : List Entry) → chain_has key c ≡ is_some (lookup key c)
unfolding chain_has lookup
chain_has-lookup key [] = refl
chain_has-lookup key (x ∷ c) = ground (arith, chain_has-lookup key c)

pub chain_find-lookup : (key : Str) (c : List Entry) → chain_find key c ≡ or_null (lookup key c)
unfolding chain_find lookup
chain_find-lookup key [] = refl
chain_find-lookup key (x ∷ c) = ground (arith, chain_find-lookup key c, str_eq_symm key x.key)

pub lookup-of_count : (key : Str) (c : List Entry) → count key c ≡ 0 → lookup key c ≡ none
unfolding count lookup
lookup-of_count key [] h = refl
lookup-of_count key (x ∷ c) h = ground (arith, lookup-of_count key c)

pub count-of_lookup : (key : Str) (c : List Entry) → lookup key c ≡ none → count key c ≡ 0
unfolding count lookup
count-of_lookup key [] h = refl
count-of_lookup key (x ∷ c) h = ground (arith, count-of_lookup key c)

module _ (key q : Str) where
  pub lookup-append :
      (e : Entry) (c : List Entry)
      → e.key ≡ key
      → lookup key c ≡ none
      → lookup q (c ++ e ∷ []) ≡ (if str_eq q key then some e.value else lookup q c)
  unfolding lookup
  lookup-append e [] h absent = rw h
  lookup-append e (x ∷ c) h absent =
      ground
        (arith, lookup-append e c h, str_eq_iff q key, str_eq_iff q x.key, str_eq_iff key x.key)

  pub count-append :
      (e : Entry) (c : List Entry)
      → e.key ≡ key
      → count q (c ++ e ∷ []) ≡ count q c + (if str_eq q key then 1 else 0)
  unfolding count
  count-append e [] h = rw h (omega arith)
  count-append e (x ∷ c) h = omega (arith, count-append e c h)

  pub lookup-chain_remove :
      (c : List Entry)
      → count q c ≤ 1
      → lookup q (chain_remove key c).1 ≡ (if str_eq q key then none else lookup q c)
  unfolding lookup chain_remove count
  lookup-chain_remove [] h = ground arith
  lookup-chain_remove (x ∷ c) h = ground (
    arith,
    lookup-chain_remove c,
    lookup-of_count q c,
    str_eq_iff q key,
    str_eq_iff q x.key,
    str_eq_iff x.key key,
  )

  pub count-chain_remove : (c : List Entry) → count q (chain_remove key c).1 ≤ count q c
  unfolding count chain_remove
  count-chain_remove [] = omega arith
  count-chain_remove (x ∷ c) = ground (arith, count-chain_remove c)

pub chain_remove-value :
    (key : Str) (c : List Entry) → (chain_remove key c).0 ≡ or_null (lookup key c)
unfolding lookup chain_remove
chain_remove-value key [] = refl
chain_remove-value key (x ∷ c) = ground (arith, chain_remove-value key c, str_eq_symm key x.key)
