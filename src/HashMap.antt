-- ===== src/HashMap.antt =====
-- kernel/structures/hashmap.c. A chain of `kv_t` belongs to its map alone, so it is a list, and the
-- array is a list of chains. A `void *` is a number with 0 for NULL; a NULL map or key is `none`.
-- Each `kmalloc` of an operation is an argument that says whether it succeeds.
pub mod Chain
pub mod Laws
mod Examples
use dionysus.Prelude.{
  ℕ, ◌+◌, ◌-◌, ◌*◌, ◌%◌, ◌^◌, Bool, true, false, Option, none, some, List, [], ◌∷◌, ◌++◌, ltb, ◌==◌,
  if◌then◌else◌, get_or, set, replicate,
}
use dionysus.Errno.{err, efault, enomem, eexist}
use dionysus.Prelude.Int.{ℤ, pos}
use dionysus.Prelude.Str.{Str, str_eq}

pub record Entry : Type 0 where
  pub key : Str
  pub value : ℕ

pub record HashMap : Type 0 where
  pub array : List (List Entry)
  pub hash : Str → ℕ
  pub n : ℕ

-- `c = *key++`: a `char` is signed, and is widened to 32 bits.
abbrev pub widen : ℕ → ℕ
widen c = if ltb c 128 then c else c + (2 ^ 32 - 256)

djb2_loop : ℕ → Str → ℕ
djb2_loop hash [] = hash
djb2_loop hash (c ∷ key) = djb2_loop ((hash * 2 ^ 5 % 2 ^ 32 + hash + widen c) % 2 ^ 32) key

pub djb2 : Str → ℕ
unfolding djb2_loop
djb2 key = djb2_loop 5381 key

abbrev pub hash_or_djb2 : Option (Str → ℕ) → Str → ℕ
hash_or_djb2 none = djb2
hash_or_djb2 (some hash) = hash

pub hashmap_create : (map_ok array_ok : Bool) → ℕ → Option (Str → ℕ) → Option HashMap
hashmap_create map_ok array_ok n hash =
    if n == 0
    then none
    else if map_ok
    then (if array_ok
        then some (record { array = replicate n []; hash = hash_or_djb2 hash; n = n })
        else none)
    else none

-- the chain that `key` belongs to
abbrev pub slot : HashMap → Str → ℕ
slot m key = m.hash key % m.n

abbrev pub bucket : HashMap → Str → List Entry
bucket m key = get_or m.array (slot m key) []

abbrev pub with_bucket : HashMap → Str → List Entry → HashMap
with_bucket m key c = record m { array = set m.array (slot m key) c }

-- the walk of `hashmap_insert` along a chain
pub chain_has : Str → List Entry → Bool
chain_has key [] = false
chain_has key (x ∷ c) = if str_eq key x.key then true else chain_has key c

-- `hashmap_insert` past its guards: an empty chain, or the walk and then the last link.
pub insert_chain : (entry_ok : Bool) → HashMap → Str → ℕ → List Entry → ℤ × HashMap
unfolding chain_has
insert_chain entry_ok m key value [] =
    if entry_ok
    then (pos 0, with_bucket m key (record { key = key; value = value } ∷ []))
    else (err enomem, m)
insert_chain entry_ok m key value (x ∷ c) =
    if chain_has key (x ∷ c)
    then (err eexist, m)
    else if entry_ok
    then (pos 0, with_bucket m key ((x ∷ c) ++ record { key = key; value = value } ∷ []))
    else (err enomem, m)

pub hashmap_insert : (key_ok entry_ok : Bool) → Option HashMap → Option Str → ℕ → ℤ × Option HashMap
unfolding insert_chain
hashmap_insert key_ok entry_ok none key value = (err efault, none)
hashmap_insert key_ok entry_ok (some m) none value = (err efault, some m)
hashmap_insert key_ok entry_ok (some m) (some key) value =
    if key_ok
    then (let (ret, m') = insert_chain entry_ok m key value (bucket m key) in (ret, some m'))
    else (err enomem, some m)

pub chain_find : Str → List Entry → ℕ
chain_find key [] = 0
chain_find key (x ∷ c) = if str_eq x.key key then x.value else chain_find key c

pub hashmap_find : Option HashMap → Option Str → ℕ
unfolding chain_find
hashmap_find none key = 0
hashmap_find (some m) none = 0
hashmap_find (some m) (some key) = chain_find key (bucket m key)

-- the value of the entry that is unlinked, or NULL, and the chain without it
pub chain_remove : Str → List Entry → ℕ × List Entry
chain_remove key [] = (0, [])
chain_remove key (x ∷ c) =
    let (value, rest) = chain_remove key c in
    if str_eq x.key key then (x.value, c) else (value, x ∷ rest)

pub hashmap_remove : Option HashMap → Option Str → ℕ × Option HashMap
unfolding chain_remove
hashmap_remove none key = (0, none)
hashmap_remove (some m) none = (0, some m)
hashmap_remove (some m) (some key) =
    let (value, c) = chain_remove key (bucket m key) in (value, some (with_bucket m key c))
