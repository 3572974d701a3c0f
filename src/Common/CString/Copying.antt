-- ===== src/Common/CString/Copying.antt =====
-- What `strcpy`, `strcat` and `strncpy` leave in memory.
use mira_os.Base.{
  ℕ, zero, suc, ◌+◌, ◌-◌, ◌≤◌, ◌<◌, ◌≡◌, ◌⊎◌, List, [], ◌∷◌, ◌++◌, length, some, arith,
  if◌then◌else◌, ◌&&◌, ltb,
}
use mira_os.Common.Memory.{Memory, poke}
use mira_os.Common.Memory.Copy.{within}
use mira_os.Common.CString.{strncpy, strncpy_loop, strcpy_loop, strcpy, strcat, strncpy_pad}
use mira_os.Common.CString.Terminated.{IsString, IsString-poke, string_end_lem}

-- `m'` is `m` with the `n` bytes at `src` copied to `dst`.
abbrev pub Copied : Memory → ℕ → ℕ → ℕ → Memory → Type 0
Copied m dst src n m' = (x : ℕ) → m' x ≡ (if within dst n x then m (src + (x - dst)) else m x)

-- The destination does not reach into the part of the source that is still to be read.
abbrev pub Clear : ℕ → ℕ → ℕ → Type 0
Clear dst src n = (dst ≤ src) ⊎ (src + n < dst)

strcpy_loop_lem :
    (f dst src : ℕ) (m : Memory) (s : List ℕ)
    → IsString m src s
    → Clear dst src (length s)
    → length s < f
    → (m' : Memory) × (strcpy_loop f dst src m ≡ some m') × Copied m dst src (length s + 1) m'
unfolding strcpy_loop poke
strcpy_loop_lem zero dst src m s h c lt = absurd (omega arith)
strcpy_loop_lem (suc f) dst src m [] h c lt = (poke m dst 0, ground arith, λ x. ground arith)
strcpy_loop_lem (suc f) dst src m (a ∷ s) h c lt =
    let kept = IsString-poke m dst (m src) (src + 1) s (ground arith) h.2 in
    let (m', runs, copied) =
      strcpy_loop_lem f (dst + 1) (src + 1) (poke m dst (m src)) s kept (ground arith)
        (omega arith) in
    (m', ground arith, λ x. ground (arith, copied x))

-- `strcpy` of a terminated string to a place that it does not overrun returns the destination and
-- copies the string with its terminator, and no other byte changes; a fuel above the string's length
-- is enough.
strcpy_lem :
    (f dst src : ℕ) (m : Memory) (s : List ℕ)
    → IsString m src s
    → Clear dst src (length s)
    → length s < f
    → (m' : Memory) × (strcpy f dst src m ≡ some (dst, m')) × Copied m dst src (length s + 1) m'
unfolding strcpy
strcpy_lem f dst src m s h c lt =
    let (m', runs, copied) = strcpy_loop_lem f dst src m s h c lt in
    (m', ground (arith, runs), copied)

-- A string that was copied stands at its new place.
Copied-IsString :
    (m m' : Memory) (dst src : ℕ) (s : List ℕ)
    → IsString m src s
    → ((i : ℕ) → i ≤ length s → m' (dst + i) ≡ m (src + i))
    → IsString m' dst s
Copied-IsString m m' dst src [] h same = ground (arith, same 0)
Copied-IsString m m' dst src (a ∷ s) h same = (
  ground (arith, same 0),
  h.1,
  Copied-IsString m m' (dst + 1) (src + 1) s h.2 λ i le.
      let d : dst + 1 + i ≡ dst + (i + 1) = omega arith in
      let e : src + 1 + i ≡ src + (i + 1) = omega arith in rw (d, e) (same (i + 1) (omega arith)),
)

-- The front of a string, and a string where it ends, make one string.
IsString-append :
    (m m' : Memory) (p : ℕ) (s t : List ℕ)
    → IsString m p s
    → ((x : ℕ) → x < p + length s → m' x ≡ m x)
    → IsString m' (p + length s) t
    → IsString m' p (s ++ t)
IsString-append m m' p [] t h same k = let e : p + 0 ≡ p = omega arith in rw e at k
IsString-append m m' p (a ∷ s) t h same k =
    let e : p + suc (length s) ≡ p + 1 + length s = omega arith in
    (
      ground (arith, same p),
      h.1,
      IsString-append m m' (p + 1) s t h.2 (λ x lt. same x (omega arith)) (rw e at k),
    )

-- `strcat` of two terminated strings, where the source does not overlap the destination and the room
-- behind it, leaves their concatenation at the destination and changes nothing outside it; a fuel
-- above both lengths is enough.
strcat_lem :
    (f dst src : ℕ) (m : Memory) (s t : List ℕ)
    → IsString m dst s
    → IsString m src t
    → Clear (dst + length s) src (length t)
    → length s < f
    → length t < f
    → (m' : Memory) × (strcat f dst src m ≡ some (dst, m'))
      × IsString m' dst (s ++ t)
      × ((x : ℕ) → (x < dst + length s) ⊎ (dst + length s + length t < x) → m' x ≡ m x)
unfolding strcat
strcat_lem f dst src m s t h k c lt lt' =
    let (m', runs, copied) = strcpy_loop_lem f (dst + length s) src m t k c lt' in
    (
      m',
      ground (arith, string_end_lem f dst m s h lt, runs),
      IsString-append m m' dst s t h (λ x below. ground (arith, copied x))
          (Copied-IsString m m' (dst + length s) src t k λ i le.
            let e : dst + length s + i - (dst + length s) ≡ i = omega arith in
            ground (arith, copied (dst + length s + i), e)),
      λ x out. ground (arith, copied x),
    )

strncpy_pad_lem :
    (n i dst : ℕ) (m : Memory) (x : ℕ)
    → strncpy_pad n i dst m x ≡ (if within (dst + i) n x then 0 else m x)
unfolding strncpy_pad poke
strncpy_pad_lem zero i dst m x = ground arith
strncpy_pad_lem (suc n) i dst m x =
    ground (arith, strncpy_pad_lem n (i + 1) dst (poke m (dst + i) 0) x)

strncpy_loop_lem :
    (n i dst src : ℕ) (m : Memory) (s : List ℕ) (x : ℕ)
    → IsString m (src + i) s
    → Clear (dst + i) (src + i) (length s)
    → strncpy_loop n i dst src m x ≡ (
        if within (dst + i) n x && ltb x (dst + i + length s)
        then m (src + (x - dst))
        else if within (dst + i) n x
        then 0
        else m x)
unfolding strncpy_loop poke
strncpy_loop_lem zero i dst src m s x h c = ground arith
strncpy_loop_lem (suc n) i dst src m [] x h c = ground (arith, strncpy_pad_lem (suc n) i dst m x)
strncpy_loop_lem (suc n) i dst src m (a ∷ s) x h c =
    let e : src + (i + 1) ≡ src + i + 1 = omega arith in
    let kept = IsString-poke m (dst + i) (m (src + i)) (src + i + 1) s (ground arith) h.2 in
    ground (
      arith,
      strncpy_loop_lem n (i + 1) dst src (poke m (dst + i) (m (src + i))) s x (rw e kept)
          (ground arith),
    )

-- `strncpy` of a terminated string, to a place that it does not overrun, writes exactly `n` bytes:
-- the string's first `n` characters, and zeros behind its end. With `n` no greater than the length it
-- writes no terminator.
strncpy_lem :
    (dst src n : ℕ) (m : Memory) (s : List ℕ) (x : ℕ)
    → IsString m src s
    → Clear dst src (length s)
    → (strncpy dst src n m).1 x ≡ (
        if within dst n x && ltb x (dst + length s)
        then m (src + (x - dst))
        else if within dst n x
        then 0
        else m x)
unfolding strncpy
strncpy_lem dst src n m s x h c =
    let e : src + 0 ≡ src = omega arith in
    ground (arith, strncpy_loop_lem n 0 dst src m s x (rw e h) (ground arith))
