-- ===== src/HashMap/Examples.antt =====
-- The theorems about kernel/structures/hashmap.c at concrete maps, and tests.
use dionysus.Prelude.{◌≡◌, refl, true, none, some, [], ◌∷◌, arith, ◌&&◌, not, if◌then◌else◌}
use dionysus.Prelude.Str.{Str}
use dionysus.HashMap.{HashMap, djb2, hashmap_insert, hashmap_remove}
use dionysus.HashMap.Chain.{is_some, or_null}
use dionysus.HashMap.Laws.{
  created, created-IsValid, IsValid, view, update, insert_code, hashmap_insert-view,
  hashmap_remove-view,
}

-- "a" and "b"
abbrev key_a : Str
key_a = 97 ∷ []

abbrev key_b : Str
key_b = 98 ∷ []

djb2_runs : djb2 key_a ≡ 177670
unfolding djb2
djb2_runs = refl

abbrev empty : HashMap
empty = created 4 none

empty-IsValid : IsValid empty
empty-IsValid = created-IsValid 4 none (omega arith)

hashmap_insert-view_example :
    (m' : HashMap) × (hashmap_insert true true (some empty) (some key_a) 7
      ≡ (insert_code true true (is_some (view empty key_a)), some m'))
    × IsValid m'
    × ((q : Str)
        → view m' q ≡ (
            if true && true && not (is_some (view empty key_a))
            then update (view empty) key_a (some 7) q
            else view empty q))
hashmap_insert-view_example = hashmap_insert-view true true key_a 7 empty-IsValid

hashmap_remove-view_example :
    (m' : HashMap) × (hashmap_remove (some empty) (some key_b)
      ≡ (or_null (view empty key_b), some m'))
    × IsValid m'
    × ((q : Str) → view m' q ≡ update (view empty) key_b none q)
hashmap_remove-view_example = hashmap_remove-view key_b empty-IsValid
