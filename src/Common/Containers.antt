-- ===== src/Common/Containers.antt =====
-- The array, the list and the map of lib/common/ds.c. Elements, keys and values are lists of bytes, of the
-- size that the container has for them; the nodes of a list are linked in the order of the model's list, and
-- a pointer to an element is the element. `allocated` says whether the call's `kmalloc` returns memory.
pub mod Lookup
use mira_os.Base.{
  ◌%◌, ◌^◌, ℕ, zero, suc, ◌+◌, ◌-◌, ◌*◌, Bool, true, false, ◌&&◌, ◌||◌, not, List, [], ◌∷◌, ◌++◌,
  Option, none, some, leb, ltb, length, get_elem?, get_or, set, ◌==◌, if◌then◌else◌,
}

abbrev pub Bytes : Type 0
Bytes = List ℕ

abbrev pub delete {ℓ} : {A : Type ℓ} → ℕ → List A → List A
delete n [] = []
delete zero (x ∷ xs) = xs
delete (suc n) (x ∷ xs) = x ∷ delete n xs

-- `ds_array_t`: the elements in use
pub record Array : Type 0 where
  pub elements : List Bytes
  pub elem_size : ℕ
  pub capacity : ℕ

unfoldable pub ds_array_push : Bool → Array → Bytes → Array
ds_array_push allocated arr elem =
    let full = leb (arr.capacity) (length (arr.elements)) in
    if full && not allocated then arr else record arr {
      elements = arr.elements ++ (elem ∷ []);
      capacity = if full then (arr.capacity * 2) % 2 ^ 64 else arr.capacity;
    }

unfoldable pub ds_array_get : Array → ℕ → Option Bytes
ds_array_get arr index = get_elem? (arr.elements) index

unfoldable pub ds_array_remove : Array → ℕ → Array
ds_array_remove arr index = record arr { elements = delete index (arr.elements) }

unfoldable pub ds_array_count : Array → ℕ
ds_array_count arr = length (arr.elements)

-- `ds_list_push`; a NULL is not pushed.
unfoldable pub ds_list_push : Bool → List ℕ → ℕ → List ℕ
ds_list_push allocated list value =
    if value == 0 then list else if allocated then list ++ (value ∷ []) else list

-- `none` is NULL.
unfoldable pub ds_list_pop : List ℕ → Option ℕ × List ℕ
ds_list_pop [] = (none, [])
ds_list_pop (x ∷ list) = (some x, list)

unfoldable pub ds_list_get : List ℕ → ℕ → Option ℕ
ds_list_get list index = get_elem? list index

unfoldable pub ds_list_remove : List ℕ → ℕ → List ℕ
ds_list_remove list index = delete index list

-- `ds_hashmap_t`: the blocks `keys` and `values` are arrays of bytes, in which the pair `i` has its key from
-- `i * key_size` on and its value from `i * value_size` on.
pub record HashMap : Type 0 where
  pub keys : Bytes
  pub values : Bytes
  pub key_size : ℕ
  pub value_size : ℕ
  pub capacity : ℕ
  pub count : ℕ

-- `none` is NULL. `keys` and `values` are the blocks that `kmalloc` returns for the two arrays, or `none`.
unfoldable pub ds_hashmap_create : Bool → Option Bytes → Option Bytes → ℕ → ℕ → ℕ → Option HashMap
ds_hashmap_create true (some keys) (some values) key_size value_size capacity = some (record {
  keys = keys;
  values = values;
  key_size = key_size;
  value_size = value_size;
  capacity = capacity;
  count = 0;
})
ds_hashmap_create _ _ _ key_size value_size capacity = none

-- `dst[to + i] = src[i]` from `i` on, with the rounds left.
unfoldable pub copy_in : ℕ → ℕ → ℕ → Bytes → Bytes → Bytes
copy_in zero i to src dst = dst
copy_in (suc n) i to src dst = copy_in n (i + 1) to src (set dst (to + i) (get_or src i 0))

-- `block[to + i] = block[from + i]` from `i` on, with the rounds left.
unfoldable pub move_in : ℕ → ℕ → ℕ → ℕ → Bytes → Bytes
move_in zero i to from block = block
move_in (suc n) i to from block =
    move_in n (i + 1) to from (set block (to + i) (get_or block (from + i) 0))

-- The comparison of a key with the bytes of `keys` from `base` on, from byte `j` on, with the rounds left.
unfoldable pub match_key : ℕ → ℕ → ℕ → Bytes → Bytes → Bool
match_key zero j base keys key = true
match_key (suc n) j base keys key =
    let rest = match_key n (j + 1) base keys key in
    if get_or keys (base + j) 0 == get_or key j 0 then rest else false

unfoldable pub ds_hashmap_set : HashMap → Bytes → Bytes → Bool × HashMap
unfolding copy_in
ds_hashmap_set map key value = if leb (map.capacity) (map.count) then (false, map) else (
  true,
  record map {
    keys = copy_in (map.key_size) 0 (map.count * map.key_size) key (map.keys);
    values = copy_in (map.value_size) 0 (map.count * map.value_size) value (map.values);
    count = map.count + 1;
  },
)

-- The loop over the pairs, from `i` on, with the rounds left: the first with that key.
unfoldable pub find_key : ℕ → ℕ → HashMap → Bytes → Option ℕ
unfolding match_key
find_key zero i map key = none
find_key (suc n) i map key =
    let rest = find_key n (i + 1) map key in
    if match_key (map.key_size) 0 (i * map.key_size) (map.keys) key then some i else rest

-- The result is the place in `values` that the pointer points at.
unfoldable pub ds_hashmap_get : HashMap → Bytes → Option ℕ
unfolding find_key
ds_hashmap_get map key = elim (find_key (map.count) 0 map key) [
  | none ↦ none
  | some i ↦ some (i * map.value_size)
]

-- `for (k = i; k < count - 1; k++)`: the pairs behind move down by one; with the rounds left.
unfoldable pub move_pairs : ℕ → ℕ → HashMap → HashMap
unfolding move_in
move_pairs zero k map = map
move_pairs (suc n) k map = move_pairs n (k + 1) (record map {
  keys = move_in (map.key_size) 0 (k * map.key_size) ((k + 1) * map.key_size) (map.keys);
  values = move_in (map.value_size) 0 (k * map.value_size) ((k + 1) * map.value_size) (map.values);
})

unfoldable pub ds_hashmap_remove : HashMap → Bytes → Bool × HashMap
unfolding find_key move_pairs
ds_hashmap_remove map key = elim (find_key (map.count) 0 map key) [
  | none ↦ (false, map)
  | some i ↦ (true, record (move_pairs (map.count - 1 - i) i map) { count = map.count - 1 })
]
