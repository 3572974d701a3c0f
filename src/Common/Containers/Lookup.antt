-- ===== src/Common/Containers/Lookup.antt =====
-- What is found in the map of lib/common/ds.c after a change.
use mira_os.Base.{
  ℕ, zero, suc, ◌+◌, ◌*◌, ◌<◌, ◌≤◌, ◌≡◌, ◌≢◌, ◌⊎◌, refl, ap, sym, ◌∙◌, true, false, Option, none,
  some, length, get_or, set, leb, ◌==◌, Bool, if◌then◌else◌, arith, Bool-cases, inl, inr,
  get_or-set_self, get_or-set_ne, length-set, Option-cases,
}
use mira_os.Common.Containers.{
  Bytes, HashMap, copy_in, match_key, find_key, ds_hashmap_set, ds_hashmap_get,
}

length-copy_in : (n i to : ℕ) (src dst : Bytes) → length (copy_in n i to src dst) ≡ length dst
unfolding copy_in
length-copy_in zero i to src dst = refl
length-copy_in (suc n) i to src dst =
    length-copy_in n (i + 1) to src (set dst (to + i) (get_or src i 0))
    ∙ length-set dst (to + i) (get_or src i 0)

copy_in-outside :
    (n i to x : ℕ) (src dst : Bytes)
    → (x < to + i) ⊎ (to + i + n ≤ x)
    → get_or (copy_in n i to src dst) x 0 ≡ get_or dst x 0
unfolding copy_in
copy_in-outside zero i to x src dst h = refl
copy_in-outside (suc n) i to x src dst (inl h) =
    copy_in-outside n (i + 1) to x src (set dst (to + i) (get_or src i 0)) (inl (omega arith))
    ∙ get_or-set_ne dst (to + i) x (get_or src i 0) 0 (omega arith)
copy_in-outside (suc n) i to x src dst (inr h) =
    copy_in-outside n (i + 1) to x src (set dst (to + i) (get_or src i 0)) (inr (omega arith))
    ∙ get_or-set_ne dst (to + i) x (get_or src i 0) 0 (omega arith)

copy_in-inside :
    (n i to j : ℕ) (src dst : Bytes)
    → i ≤ j
    → j < i + n
    → to + i + n ≤ length dst
    → get_or (copy_in n i to src dst) (to + j) 0 ≡ get_or src j 0
unfolding copy_in
copy_in-inside zero i to j src dst low high room = absurd (omega arith)
copy_in-inside (suc n) i to j src dst low high room =
    let l = length-set dst (to + i) (get_or src i 0) in
    elim (Bool-cases (i == j)) [
      | inl e ↦
          let same : i ≡ j = ground (arith, e) in
          copy_in-outside n (i + 1) to (to + j) src (set dst (to + i) (get_or src i 0))
            (inl (omega (arith, same)))
          ∙ ap (λ k. get_or (set dst (to + i) (get_or src i 0)) (to + k) 0) (sym same)
          ∙ get_or-set_self dst (to + i) (get_or src i 0) 0 (omega arith)
          ∙ ap (λ k. get_or src k 0) same
      | inr e ↦
          copy_in-inside n (i + 1) to j src (set dst (to + i) (get_or src i 0)) (ground arith)
            (omega arith) (omega (arith, l))
    ]

match_key-true :
    (n j base : ℕ) (keys key : Bytes)
    → ((k : ℕ) → j ≤ k → k < j + n → get_or keys (base + k) 0 ≡ get_or key k 0)
    → match_key n j base keys key ≡ true
unfolding match_key
match_key-true zero j base keys key h = refl
match_key-true (suc n) j base keys key h =
    let rest =
      match_key-true n (j + 1) base keys key (λ k low high. h k (omega arith) (omega arith)) in
    let first = h j (omega arith) (omega arith) in ground (arith, rest, first)

match_key-false :
    (n j base k : ℕ) (keys key : Bytes)
    → j ≤ k
    → k < j + n
    → get_or keys (base + k) 0 ≢ get_or key k 0
    → match_key n j base keys key ≡ false
unfolding match_key
match_key-false zero j base k keys key low high ne = absurd (omega arith)
match_key-false (suc n) j base k keys key low high ne = elim (Bool-cases (j == k)) [
  | inl e ↦
      let same : k ≡ j = ground (arith, e) in
      let ne' : get_or keys (base + j) 0 ≢ get_or key j 0 = λ q. ne (rw same q) in
      ground (arith, ne')
  | inr e ↦
      let rest = match_key-false n (j + 1) base k keys key (ground arith) (omega arith) ne in
      ground (arith, rest)
]

match_key-same :
    (n j base : ℕ) (keys keys' key : Bytes)
    → ((x : ℕ) → x < base + j + n → get_or keys' x 0 ≡ get_or keys x 0)
    → match_key n j base keys' key ≡ match_key n j base keys key
unfolding match_key
match_key-same zero j base keys keys' key h = refl
match_key-same (suc n) j base keys keys' key h =
    let first = h (base + j) (omega arith) in
    let rest = match_key-same n (j + 1) base keys keys' key (λ x lt. h x (omega arith)) in
    rw first (rw rest refl)

row_below : (i n p : ℕ) → i < n → i * p + p ≤ n * p
row_below i n p lt = grind arith

find_key-same :
    (n i c : ℕ) (map : HashMap) (keys values key : Bytes)
    → ((x : ℕ) → x < (i + n) * map.key_size → get_or keys x 0 ≡ get_or (map.keys) x 0)
    → find_key n i (record map { keys = keys; values = values; count = c }) key
      ≡ find_key n i map key
unfolding find_key
find_key-same zero i c map keys values key h = refl
find_key-same (suc n) i c map keys values key h =
    let below = row_below i (i + suc n) (map.key_size) (omega arith) in
    let first =
      match_key-same (map.key_size) 0 (i * map.key_size) (map.keys) keys key
        (λ x lt. h x (omega (arith, below))) in
    let total : i + 1 + n ≡ i + suc n = omega arith in
    let rest =
      find_key-same n (i + 1) c map keys values key
        (λ x lt. h x (let lt' : x < (i + suc n) * map.key_size = rw (sym total) lt in lt')) in
    ap
      (λ b.
        if b
        then some i
        else find_key n (i + 1) (record map { keys = keys; values = values; count = c }) key)
      first
    ∙ ap (λ o. if match_key (map.key_size) 0 (i * map.key_size) (map.keys) key then some i else o)
        rest

abbrev or_else : Option ℕ → Option ℕ → Option ℕ
or_else none o = o
or_else (some i) o = some i

-- The last round of the loop
find_key-last :
    (n i : ℕ) (map : HashMap) (key : Bytes)
    → find_key (suc n) i map key
      ≡ or_else (find_key n i map key) (
          if match_key (map.key_size) 0 ((i + n) * map.key_size) (map.keys) key
          then some (i + n)
          else none)
unfolding find_key
find_key-last zero i map key = let here : i + 0 ≡ i = omega arith in rw here refl
find_key-last (suc n) i map key =
    let rest = find_key-last n (i + 1) map key in
    let total : i + 1 + n ≡ i + suc n = omega arith in
    elim (Bool-cases (match_key (map.key_size) 0 (i * map.key_size) (map.keys) key)) [
      | inl e ↦ rw e refl
      | inr e ↦ rw e (
          rest
          ∙ ap
              (λ t. or_else (find_key n (i + 1) map key) (
                if match_key (map.key_size) 0 (t * map.key_size) (map.keys) key
                then some t
                else none))
              total)
    ]

-- What `ds_hashmap_get` returns after `ds_hashmap_set`, by the comparison with the new key
get-set :
    (map : HashMap) (keys values other : Bytes) (found : Option ℕ) (b : Bool)
    → ((x : ℕ) → x < map.count * map.key_size → get_or keys x 0 ≡ get_or (map.keys) x 0)
    → find_key (map.count) 0 map other ≡ found
    → match_key (map.key_size) 0 (map.count * map.key_size) keys other ≡ b
    → find_key
        (map.count + 1)
        0
        (record map { keys = keys; values = values; count = map.count + 1 })
        other
      ≡ or_else found (if b then some (map.count) else none)
get-set map keys values other found b h old new =
    let map' : HashMap = record map { keys = keys; values = values; count = map.count + 1 } in
    let next : map.count + 1 ≡ suc (map.count) = omega arith in
    let start : map.count ≡ 0 + map.count = omega arith in
    ap (λ n. find_key n 0 map' other) next
    ∙ find_key-last (map.count) 0 map' other
    ∙ ap
        (λ o. or_else o (
          if match_key (map.key_size) 0 ((0 + map.count) * map.key_size) keys other
          then some (0 + map.count)
          else none))
        (find_key-same (map.count) 0 (map.count + 1) map keys values other (rw start at h) ∙ old)
    ∙ ap
        (λ n.
          or_else found
            (if match_key (map.key_size) 0 (n * map.key_size) keys other then some n else none))
        (sym start)
    ∙ ap (λ t. or_else found (if t then some (map.count) else none)) new

get_of : HashMap → Option ℕ → Option ℕ
get_of map none = none
get_of map (some i) = some (i * map.value_size)

get_eq :
    (map : HashMap) (key : Bytes)
    → ds_hashmap_get map key ≡ get_of map (find_key (map.count) 0 map key)
unfolding ds_hashmap_get get_of
get_eq map key = elim (Option-cases (find_key (map.count) 0 map key)) [
  | inl e ↦ rw (e, ds_hashmap_get) refl
  | inr (i, e) ↦ rw (e, ds_hashmap_get) refl
]

-- `ds_hashmap_set`, while there is room and on blocks that hold the pairs of the capacity, adds a pair and never
-- replaces one. A key that was found is found at the same place afterwards, also the key that is set; where the
-- key was not found, its value is at the place behind the others, byte for byte, and a key of other bytes is
-- not found. No value before it is changed.
pub ds_hashmap_get-set :
    (map : HashMap) (key value other : Bytes)
    → map.count < map.capacity
    → map.capacity * map.key_size ≤ length (map.keys)
    → map.capacity * map.value_size ≤ length (map.values)
    → (map' : HashMap) × (ds_hashmap_set map key value ≡ (true, map'))
      × ((place : ℕ)
          → ds_hashmap_get map other ≡ some place
          → ds_hashmap_get map' other ≡ some place)
      × (ds_hashmap_get map other ≡ none
          → ((j : ℕ) → j < map.key_size → get_or key j 0 ≡ get_or other j 0)
          → ds_hashmap_get map' other ≡ some (map.count * map.value_size))
      × (ds_hashmap_get map other ≡ none
          → (j : ℕ) → j < map.key_size
          → get_or key j 0 ≢ get_or other j 0
          → ds_hashmap_get map' other ≡ none)
      × ((j : ℕ)
          → j < map.value_size
          → get_or (map'.values) (map.count * map.value_size + j) 0 ≡ get_or value j 0)
      × ((x : ℕ)
          → x < map.count * map.value_size
          → get_or (map'.values) x 0 ≡ get_or (map.values) x 0)
unfolding ds_hashmap_set get_of
ds_hashmap_get-set map key value other room keys_fit values_fit =
    let at = map.count * map.key_size in
    let keys = copy_in (map.key_size) 0 at key (map.keys) in
    let values = copy_in (map.value_size) 0 (map.count * map.value_size) value (map.values) in
    let map' : HashMap = record map { keys = keys; values = values; count = map.count + 1 } in
    let keys_room = row_below (map.count) (map.capacity) (map.key_size) room in
    let values_room = row_below (map.count) (map.capacity) (map.value_size) room in
    let kept : (x : ℕ) → x < at → get_or keys x 0 ≡ get_or (map.keys) x 0 =
      λ x lt. copy_in-outside (map.key_size) 0 at x key (map.keys) (inl (omega (arith, lt))) in
    let new : (j : ℕ) → j < map.key_size → get_or keys (at + j) 0 ≡ get_or key j 0 = λ j lt.
      copy_in-inside (map.key_size) 0 at j key (map.keys) (omega arith) (omega (arith, lt))
        (omega (arith, keys_room, keys_fit)) in
    let start : leb (map.capacity) (map.count) ≡ false = ground (arith, room) in
    (
      map',
      rw start refl,
      λ place old. elim (Option-cases (find_key (map.count) 0 map other)) [
        | inl e ↦ absurd (ground (arith, get_eq map other, e, old))
        | inr (i, e) ↦
            get_eq map' other
            ∙ ap (get_of map') (get-set map keys values other (some i) _ kept e refl)
            ∙ ap (get_of map) (sym e)
            ∙ sym (get_eq map other)
            ∙ old
      ],
      λ old same. elim (Option-cases (find_key (map.count) 0 map other)) [
        | inr (i, e) ↦ absurd (ground (arith, get_eq map other, e, old))
        | inl e ↦
            get_eq map' other
            ∙ ap (get_of map') (
                get-set map keys values other none true kept e (
                  match_key-true (map.key_size) 0 at keys other
                    (λ k low high. new k (omega (arith, high)) ∙ same k (omega (arith, high)))))
      ],
      λ old j lt ne. elim (Option-cases (find_key (map.count) 0 map other)) [
        | inr (i, e) ↦ absurd (ground (arith, get_eq map other, e, old))
        | inl e ↦
            get_eq map' other
            ∙ ap (get_of map') (
                get-set map keys values other none false kept e (
                  match_key-false (map.key_size) 0 at j keys other (omega arith) (omega (arith, lt))
                    (λ q. ne (sym (new j lt) ∙ q))))
      ],
      λ j lt.
          copy_in-inside (map.value_size) 0 (map.count * map.value_size) j value (map.values)
            (omega arith) (omega (arith, lt)) (omega (arith, values_room, values_fit)),
      λ x lt.
          copy_in-outside (map.value_size) 0 (map.count * map.value_size) x value (map.values)
            (inl (omega (arith, lt))),
    )
