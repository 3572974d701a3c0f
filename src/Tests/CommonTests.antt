-- ===== src/Tests/CommonTests.antt =====
-- lib/common at concrete inputs.
use mira_os.Base.{
  ℕ, ◌+◌, ◌*◌, ◌<◌, ◌≢◌, get_or, replicate, ◌≡◌, refl, true, ◌==◌, if◌then◌else◌, none, some, [],
  ◌∷◌, arith, pos,
}
use mira_os.Common.Memory.{Memory}
use mira_os.Common.CString.{
  strncmp, strncmp_loop, strchr, strstr, strstr_loop, strstr_match, strncat, strncat_loop,
  ds_strlen, ds_strcmp, ds_strcpy, ds_strcat, strncpy_pad,
}
use mira_os.Common.CString.Terminated.{IsString}
use mira_os.Common.Containers.{
  Bytes, HashMap, ds_array_push, ds_array_get, ds_array_remove, ds_array_count, ds_list_push,
  ds_list_pop, ds_list_get, ds_list_remove, ds_hashmap_create, ds_hashmap_set, ds_hashmap_get,
  ds_hashmap_remove, match_key, find_key, copy_in, move_in, move_pairs,
}
use mira_os.Common.Containers.Lookup.{ds_hashmap_get-set}

-- "Hi" at 10 and "!" at 30
abbrev texts : Memory
texts a = if a == 10 then 72 else if a == 11 then 105 else if a == 30 then 33 else 0

hi-IsString : IsString texts 10 (72 ∷ 105 ∷ [])
hi-IsString = (refl, omega arith, (refl, omega arith, refl))

bang-IsString : IsString texts 30 (33 ∷ [])
bang-IsString = (refl, omega arith, refl)

-- One pair of a key of two bytes and a value of one, in blocks for four pairs
abbrev one_pair : HashMap
one_pair = record {
  keys = 1 ∷ 2 ∷ replicate 6 9;
  values = 5 ∷ replicate 3 9;
  key_size = 2;
  value_size = 1;
  capacity = 4;
  count = 1;
}

abbrev one_three : Bytes
one_three = 1 ∷ 3 ∷ []

abbrev seven : Bytes
seven = 7 ∷ []

ds_hashmap_get-set_example :
    (map' : HashMap) × (ds_hashmap_set one_pair one_three seven ≡ (true, map'))
    × ((place : ℕ)
        → ds_hashmap_get one_pair one_three ≡ some place
        → ds_hashmap_get map' one_three ≡ some place)
    × (ds_hashmap_get one_pair one_three ≡ none
        → ((j : ℕ) → j < 2 → get_or one_three j 0 ≡ get_or one_three j 0)
        → ds_hashmap_get map' one_three ≡ some (1 * 1))
    × (ds_hashmap_get one_pair one_three ≡ none
        → (j : ℕ) → j < 2
        → get_or one_three j 0 ≢ get_or one_three j 0
        → ds_hashmap_get map' one_three ≡ none)
    × ((j : ℕ) → j < 1 → get_or (map'.values) (1 * 1 + j) 0 ≡ get_or seven j 0)
    × ((x : ℕ) → x < 1 * 1 → get_or (map'.values) x 0 ≡ get_or (one_pair.values) x 0)
ds_hashmap_get-set_example =
    ds_hashmap_get-set one_pair one_three seven one_three (omega arith) (omega arith) (omega arith)

-- What the searches and the shorter comparisons return
searches :
    (strchr 5 10 (pos 105) texts ≡ some 11)
    × (strstr 5 10 11 texts ≡ some 11)
    × (strncmp 10 10 0 texts ≡ pos 0)
unfolding strchr strstr strstr_loop strstr_match strncmp strncmp_loop
searches = (refl, refl, refl)

-- The second key of two is found behind the first, and takes its place when the first is removed.
two_pairs :
    (ds_hashmap_get (ds_hashmap_set one_pair (1 ∷ 3 ∷ []) (7 ∷ [])).1 (1 ∷ 3 ∷ []) ≡ some 1)
    × (ds_hashmap_get
          (ds_hashmap_remove (ds_hashmap_set one_pair (1 ∷ 3 ∷ []) (7 ∷ [])).1 (1 ∷ 2 ∷ [])).1
          (1 ∷ 3 ∷ [])
        ≡ some 0)
    × (ds_hashmap_create true none none 2 1 4 ≡ none)
unfolding ds_hashmap_remove ds_hashmap_set ds_hashmap_get find_key match_key copy_in move_in
    move_pairs ds_hashmap_create ds_array_push ds_array_get ds_array_remove ds_array_count
    ds_list_push ds_list_pop ds_list_get ds_list_remove ds_strlen ds_strcmp ds_strcpy ds_strcat
    strncat strncat_loop strncpy_pad
two_pairs = (refl, refl, refl)
