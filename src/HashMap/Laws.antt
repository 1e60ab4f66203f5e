-- ===== src/HashMap/Laws.antt =====
-- A map as a function from keys to values, the invariant behind it, and what each operation does.
use dionysus.Prelude.{
  ℕ, ◌≤◌, ◌<◌, ◌≡◌, refl, inl, inr, Bool, true, false, Option, none, some, List, [], ◌∷◌, ◌++◌,
  ◌&&◌, not, arith, if◌then◌else◌, length, get_or, replicate, get_or-set, get_or-replicate,
  length-set, length-replicate, Bool-cases,
}
use dionysus.Prelude.Int.{ℤ, pos}
use dionysus.Prelude.Str.{Str, str_eq, str_eq_iff}
use dionysus.Errno.{err, enomem, eexist}
use dionysus.HashMap.{
  Entry, HashMap, slot, bucket, with_bucket, hash_or_djb2, chain_has, hashmap_create, insert_chain,
  hashmap_insert, hashmap_find, chain_remove, hashmap_remove,
}
use dionysus.HashMap.Chain.{
  lookup, count, is_some, or_null, chain_has-lookup, chain_find-lookup, count-of_lookup,
  lookup-append, count-append, lookup-chain_remove, count-chain_remove, chain_remove-value,
}

-- what the map holds under a key
abbrev pub view : HashMap → Str → Option ℕ
view m key = lookup key (bucket m key)

-- The array has its `n` chains, and no chain has a key twice.
pub record IsValid (m : HashMap) : Type 0 where
  pub wide : 0 < m.n
  pub full : length m.array ≡ m.n
  pub unique : (q : Str) (i : ℕ) → count q (get_or m.array i []) ≤ 1

abbrev pub update : (Str → Option ℕ) → Str → Option ℕ → Str → Option ℕ
update f key v q = if str_eq q key then v else f q

module _ {m : HashMap} (valid : IsValid m) (key : Str) where
  slot-lt : slot m key < length m.array
  slot-lt = omega (arith, valid.full, valid.wide)

  -- A write to the chain of `key`, from what it does to that chain.
  with_bucket-IsValid :
      (c : List Entry) → ((q : Str) → count q c ≤ 1) → IsValid (with_bucket m key c)
  with_bucket-IsValid c few = record {
    wide = valid.wide;
    full = rw length-set valid.full;
    unique = λ q i. rw (get_or-set, slot-lt) (ground (arith, few q, valid.unique q i));
  }

  view-with_bucket :
      (c : List Entry) (v : Option ℕ)
      → ((q : Str) → lookup q c ≡ (if str_eq q key then v else lookup q (bucket m key)))
      → (q : Str) → view (with_bucket m key c) q ≡ update (view m) key v q
  view-with_bucket c v reads q =
      rw (get_or-set, slot-lt) (ground (arith, reads q, str_eq_iff q key))

-- What `hashmap_insert` returns, and whether it stores.
abbrev pub insert_code : (key_ok entry_ok present : Bool) → ℤ
insert_code key_ok entry_ok present =
    if key_ok
    then (if present then err eexist else if entry_ok then pos 0 else err enomem)
    else err enomem

insert_chain_lem :
    (entry_ok : Bool) (m : HashMap) (key : Str) (value : ℕ) (c : List Entry)
    → insert_chain entry_ok m key value c ≡ (
      insert_code true entry_ok (is_some (lookup key c)),
      (if entry_ok && not (is_some (lookup key c))
          then with_bucket m key (c ++ record { key = key; value = value } ∷ [])
          else m),
    )
unfolding insert_chain lookup chain_has
insert_chain_lem entry_ok m key value [] = ground arith
insert_chain_lem entry_ok m key value (x ∷ c) = ground (arith, chain_has-lookup key c)

-- the map after an insertion that succeeds
abbrev stored : HashMap → Str → ℕ → HashMap
stored m key value = with_bucket m key (bucket m key ++ record { key = key; value = value } ∷ [])

eq_none_of_not_some : (o : Option ℕ) → is_some o ≡ false → o ≡ none
eq_none_of_not_some none h = refl
eq_none_of_not_some (some v) h = cc

module _ {m : HashMap} (valid : IsValid m) (key : Str) (value : ℕ)
    (absent : is_some (view m key) ≡ false) where
  stored-IsValid : IsValid (stored m key value)
  stored-IsValid =
      let gone = eq_none_of_not_some (view m key) absent in
      with_bucket-IsValid valid key _ λ q. ground (
        arith,
        count-append key q (record { key = key; value = value }) (bucket m key) refl,
        count-of_lookup key (bucket m key) gone,
        valid.unique q (slot m key),
        str_eq_iff q key,
      )

  view-stored : (q : Str) → view (stored m key value) q ≡ update (view m) key (some value) q
  view-stored = view-with_bucket valid key _ (some value) λ q.
      lookup-append key q (record { key = key; value = value }) (bucket m key) refl
        (eq_none_of_not_some (view m key) absent)

-- `hashmap_insert` stores the value when both allocations succeed and the key is new; otherwise it
-- changes nothing. Its code is 0, -EEXIST for a key that is there, and -ENOMEM.
pub hashmap_insert-view :
    (key_ok entry_ok : Bool) {m : HashMap} (key : Str) (value : ℕ)
    → IsValid m
    → (m' : HashMap) × (hashmap_insert key_ok entry_ok (some m) (some key) value
        ≡ (insert_code key_ok entry_ok (is_some (view m key)), some m'))
      × IsValid m'
      × ((q : Str)
          → view m' q ≡ (
              if key_ok && entry_ok && not (is_some (view m key))
              then update (view m) key (some value) q
              else view m q))
unfolding hashmap_insert
hashmap_insert-view false entry_ok {m} key value valid = (m, refl, valid, λ q. refl)
hashmap_insert-view true entry_ok {m} key value valid =
    let step = insert_chain_lem entry_ok m key value (bucket m key) in
    elim (Bool-cases (entry_ok && not (is_some (view m key)))) [
      | inl new ↦
          let absent : is_some (view m key) ≡ false = ground arith in
          (
            stored m key value,
            rw (step, new) refl,
            stored-IsValid valid key value absent,
            λ q. rw new (view-stored valid key value absent q),
          )
      | inr old ↦ (m, rw (step, old) refl, valid, λ q. rw old refl)
    ]

-- `hashmap_find` returns what the map holds under the key, or NULL; without a map or a
-- key it returns NULL.
pub hashmap_find-view :
    (m : HashMap) (key : Str)
    → (hashmap_find (some m) (some key) ≡ or_null (view m key))
      × (hashmap_find (some m) none ≡ 0)
      × (hashmap_find none (some key) ≡ 0)
unfolding hashmap_find
hashmap_find-view m key = (chain_find-lookup key (bucket m key), refl, refl)

-- `hashmap_remove` returns what the map held under the key, or NULL, and leaves the map without
-- that key and otherwise as it was.
pub hashmap_remove-view :
    {m : HashMap} (key : Str)
    → IsValid m
    → (m' : HashMap) × (hashmap_remove (some m) (some key) ≡ (or_null (view m key), some m'))
      × IsValid m'
      × ((q : Str) → view m' q ≡ update (view m) key none q)
unfolding hashmap_remove
hashmap_remove-view {m} key valid =
    let c = (chain_remove key (bucket m key)).1 in
    (
      with_bucket m key c,
      rw chain_remove-value,
      with_bucket-IsValid valid key c
          λ q. omega (arith, count-chain_remove key q (bucket m key), valid.unique q (slot m key)),
      view-with_bucket valid key c none
          λ q. lookup-chain_remove key q (bucket m key) (valid.unique q (slot m key)),
    )

abbrev pub created : ℕ → Option (Str → ℕ) → HashMap
created n hash = record { array = replicate n []; hash = hash_or_djb2 hash; n = n }

view-created : (n : ℕ) (hash : Option (Str → ℕ)) (q : Str) → view (created n hash) q ≡ none
unfolding lookup
view-created n hash q = rw get_or-replicate

pub created-IsValid : (n : ℕ) (hash : Option (Str → ℕ)) → 0 < n → IsValid (created n hash)
unfolding count
created-IsValid n hash wide = record {
  wide = wide;
  full = length-replicate n [];
  unique = λ q i. rw get_or-replicate (omega arith);
}

-- For a positive number of buckets `hashmap_create` returns a valid and empty map when both
-- allocations succeed, and NULL otherwise; for no buckets it returns NULL.
pub hashmap_create-view :
    (map_ok array_ok : Bool) (n : ℕ) (hash : Option (Str → ℕ))
    → 0 < n
    → (hashmap_create map_ok array_ok 0 hash ≡ none)
      × ((m : HashMap) × (hashmap_create map_ok array_ok n hash
            ≡ (if map_ok && array_ok then some m else none))
          × IsValid m
          × ((q : Str) → view m q ≡ none))
unfolding hashmap_create
hashmap_create-view map_ok array_ok n hash wide =
    (refl, (created n hash, ground arith, created-IsValid n hash wide, view-created n hash))
