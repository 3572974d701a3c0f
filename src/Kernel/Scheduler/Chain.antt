-- ===== src/Kernel/Scheduler/Chain.antt =====
-- Doubly linked chains of process structures.
use mira_os.Base.{
  ℕ, ◌≡◌, ◌≢◌, inl, inr, refl, ◌==◌, Option, some, List, [], ◌∷◌, ◌++◌, arith, Bool-cases, sym, ◌∙◌,
}
use mira_os.Kernel.Process.{Process, Procs, put}

abbrev pub first : List ℕ → ℕ
first [] = 0
first (x ∷ xs) = x

-- The last of `x ∷ xs`
abbrev pub last_of : ℕ → List ℕ → ℕ
last_of x [] = x
last_of x (y ∷ xs) = last_of y xs

abbrev pub NotIn : ℕ → List ℕ → Type 0
NotIn a [] = Unit
NotIn a (x ∷ xs) = (a ≢ x) × NotIn a xs

-- Structures stand at the addresses, which are distinct and not NULL. Each points to its neighbours: the
-- first back to `before`, the last on to NULL.
abbrev pub Links : Procs → ℕ → List ℕ → Type 0
Links procs before [] = Unit
Links procs before (x ∷ xs) =
    (p : Process) × (procs x ≡ some p)
    × (p.prev ≡ before)
    × (p.next ≡ first xs)
    × NotIn x xs
    × (x ≢ 0)
    × Links procs x xs

pub put_self : (procs : Procs) (a : ℕ) (v : Option Process) → put procs a v a ≡ v
unfolding put
put_self procs a v = ground arith

pub put_ne : (procs : Procs) (a c : ℕ) (v : Option Process) → c ≢ a → put procs a v c ≡ procs c
unfolding put
put_ne procs a c v ne = ground arith

-- A write elsewhere leaves the chain.
pub Links-put :
    (procs : Procs) (a before : ℕ) (v : Option Process) (xs : List ℕ)
    → NotIn a xs
    → Links procs before xs
    → Links (put procs a v) before xs
unfolding put
Links-put procs a before v [] out h = tt
Links-put procs a before v (x ∷ xs) out (p, at, prev, next, apart, nz, rest) =
    (p, ground arith, prev, next, apart, nz, Links-put procs a x v xs out.1 rest)

-- The head gets another predecessor.
pub Links-head :
    (procs : Procs) (a b x : ℕ) (xs : List ℕ) (p : Process)
    → procs x ≡ some p
    → Links procs a (x ∷ xs)
    → Links (put procs x (some (record p { prev = b }))) b (x ∷ xs)
Links-head procs a b x xs p here (q, at, prev, next, apart, nz, rest) = (
  record p { prev = b },
  unfold put in ground arith,
  refl,
  ground arith,
  apart,
  nz,
  Links-put procs x x (some (record p { prev = b })) xs apart rest,
)

pub last_of-some :
    (procs : Procs) (b x : ℕ) (xs : List ℕ)
    → Links procs b (x ∷ xs)
    → (p : Process) × (procs (last_of x xs) ≡ some p) × (p.next ≡ 0)
last_of-some procs b x [] (p, at, prev, next, apart, nz, rest) = (p, at, next)
last_of-some procs b x (y ∷ xs) (p, at, prev, next, apart, nz, rest) =
    last_of-some procs x y xs rest

pub NotIn-last_of : (a x : ℕ) (xs : List ℕ) → NotIn a (x ∷ xs) → a ≢ last_of x xs
NotIn-last_of a x [] h = h.0
NotIn-last_of a x (y ∷ xs) h = NotIn-last_of a y xs h.1

NotIn-append : (a p : ℕ) (xs : List ℕ) → NotIn a xs → a ≢ p → NotIn a (xs ++ (p ∷ []))
NotIn-append a p [] h ne = (ne, tt)
NotIn-append a p (x ∷ xs) h ne = (h.0, NotIn-append a p xs h.1 ne)

-- `p` is linked behind the last structure, which stays as it is but for `next`.
pub Links-snoc :
    (procs procs' : Procs) (b p x : ℕ) (xs : List ℕ) (last new : Process)
    → NotIn p (x ∷ xs)
    → p ≢ 0
    → procs (last_of x xs) ≡ some last
    → procs' (last_of x xs) ≡ some (record last { next = p })
    → procs' p ≡ some new
    → new.prev ≡ last_of x xs
    → new.next ≡ 0
    → ((a : ℕ) → a ≢ last_of x xs → a ≢ p → procs' a ≡ procs a)
    → Links procs b (x ∷ xs)
    → Links procs' b (x ∷ xs ++ (p ∷ []))
Links-snoc procs procs' b p x [] last new out pz old tail at' prev' next' same
      (q, at, prev, next, apart, nz, rest) =
    (
      record last { next = p },
      tail,
      ground arith,
      refl,
      ((λ e. out.0 (sym e)), tt),
      nz,
      (new, at', prev', next', tt, pz, tt),
    )
Links-snoc procs procs' b p x (y ∷ xs) last new out pz old tail at' prev' next' same
      (q, at, prev, next, apart, nz, rest) =
    (
      q,
      same x (NotIn-last_of x y xs apart) (λ e. out.0 (sym e)) ∙ at,
      prev,
      next,
      NotIn-append x p (y ∷ xs) apart (λ e. out.0 (sym e)),
      nz,
      Links-snoc procs procs' x p y xs last new out.1 pz old tail at' prev' next' same rest,
    )

-- A change of the saved registers leaves a chain.
pub Links-context :
    (procs : Procs) (c b : ℕ) (p q : Process) (xs : List ℕ)
    → procs c ≡ some p
    → q.prev ≡ p.prev
    → q.next ≡ p.next
    → Links procs b xs
    → Links (put procs c (some q)) b xs
Links-context procs c b p q [] at same_prev same_next h = tt
Links-context procs c b p q (x ∷ xs) at same_prev same_next (r, here, prev, next, apart, nz, rest) =
    elim (Bool-cases (x == c)) [
      | inl e ↦ (
        q,
        unfold put in ground arith,
        ground arith,
        ground arith,
        apart,
        nz,
        Links-context procs c x p q xs at same_prev same_next rest,
      )
      | inr e ↦ (
        r,
        unfold put in ground arith,
        prev,
        next,
        apart,
        nz,
        Links-context procs c x p q xs at same_prev same_next rest,
      )
    ]
