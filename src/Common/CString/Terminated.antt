-- ===== src/Common/CString/Terminated.antt =====
-- Strings in memory, their length, and how writes elsewhere leave them.
use mira_os.Base.{ℕ, zero, suc, ◌+◌, ◌<◌, ◌≡◌, ◌≢◌, ◌⊎◌, List, [], ◌∷◌, length, some, arith}
use mira_os.Common.Memory.{Memory, poke}
use mira_os.Common.CString.{strlen_loop, strlen, string_end}

-- The bytes of `s`, none of them 0, stand at `p`, and a 0 follows.
abbrev pub IsString : Memory → ℕ → List ℕ → Type 0
IsString m p [] = m p ≡ 0
IsString m p (c ∷ s) = (m p ≡ c) × (c ≢ 0) × IsString m (p + 1) s

strlen_loop_lem :
    (f str len : ℕ) (m : Memory) (s : List ℕ)
    → IsString m (str + len) s
    → length s < f
    → strlen_loop f str len m ≡ some (len + length s)
unfolding strlen_loop
strlen_loop_lem zero str len m s h lt = absurd (omega arith)
strlen_loop_lem (suc f) str len m [] h lt = ground arith
strlen_loop_lem (suc f) str len m (c ∷ s) h lt =
    let next : str + (len + 1) ≡ str + len + 1 = omega arith in
    ground (arith, strlen_loop_lem f str (len + 1) m s (rw next h.2) (omega arith))

-- `strlen` of a terminated string is the number of bytes before the terminator; one unit of fuel more
-- than that is enough.
strlen_lem :
    (f str : ℕ) (m : Memory) (s : List ℕ)
    → IsString m str s
    → length s < f
    → strlen f str m ≡ some (length s)
unfolding strlen
strlen_lem f str m s h lt =
    let start : str + 0 ≡ str = omega arith in
    ground (arith, strlen_loop_lem f str 0 m s (rw start h) lt)

pub string_end_lem :
    (f p : ℕ) (m : Memory) (s : List ℕ)
    → IsString m p s
    → length s < f
    → string_end f p m ≡ some (p + length s)
unfolding string_end
string_end_lem zero p m s h lt = absurd (omega arith)
string_end_lem (suc f) p m [] h lt = ground arith
string_end_lem (suc f) p m (c ∷ s) h lt =
    ground (arith, string_end_lem f (p + 1) m s h.2 (omega arith))

-- A write outside the string and its terminator leaves the string.
pub IsString-poke :
    (m : Memory) (a v p : ℕ) (s : List ℕ)
    → (a < p) ⊎ (p + length s < a)
    → IsString m p s
    → IsString (poke m a v) p s
unfolding poke
IsString-poke m a v p [] out h = ground arith
IsString-poke m a v p (c ∷ s) out h =
    (ground arith, h.1, IsString-poke m a v (p + 1) s (ground arith) h.2)

-- The byte after a string is its terminator.
IsString-end : (m : Memory) (p : ℕ) (s : List ℕ) → IsString m p s → m (p + length s) ≡ 0
IsString-end m p [] h = ground arith
IsString-end m p (c ∷ s) h = ground (arith, IsString-end m (p + 1) s h.2)
