-- ===== src/Kernel/Pmm/Owners.antt =====
-- Clients of kernel/mem.c that free only the pages they hold are never handed a page that is held.
use mira_os.Base.{
  ℕ, ◌-◌, ◌/◌, ◌≡◌, ◌≢◌, inl, inr, true, false, ◌==◌, if◌then◌else◌, arith, some, List, [], ◌∷◌,
  ◌++◌, Option-cases, Bool-cases,
}
use mira_os.Kernel.Pmm.{Pmm, first_free, bitmap_test, pmm_alloc_page, pmm_free_page}
use mira_os.Kernel.Pmm.Bitmap.{IsBytes, bitmap_set-IsBytes, bitmap_clear-IsBytes}
use mira_os.Kernel.Pmm.Alloc.{in_use, pmm_alloc_page-some, pmm_free_page_lem}

-- The page starts at no address of the list.
abbrev pub Apart : ℕ → List ℕ → Type 0
Apart p [] = Unit
Apart p (a ∷ held) = (a / 4096 ≢ p) × Apart p held

-- The allocator, and the addresses of the pages that its clients hold.
pub record Owned : Type 0 where
  pub pmm : Pmm
  pub held : List ℕ

-- A client is handed a page, or gives back one that it holds.
pub data Step : Owned → Owned → Type 0 where
  alloc :
      (s : Owned) (a : ℕ)
      → (pmm_alloc_page s.pmm).0 ≡ some a
      → Step s (record { pmm = (pmm_alloc_page s.pmm).1; held = a ∷ s.held })
  free :
      (s : Pmm) (a : ℕ) (front back : List ℕ)
      → Step
          (record { pmm = s; held = front ++ (a ∷ back) })
          (record { pmm = pmm_free_page a s; held = front ++ back })

pub data Reach (s : Owned) : Owned → Type 0 where
  here : Reach s s
  next : {t u : Owned} → Reach s t → Step t u → Reach s u

-- The held pages are in use, and no two of them are one.
abbrev pub Held : Pmm → List ℕ → Type 0
Held s [] = Unit
Held s (a ∷ held) = (in_use s (a / 4096) ≡ true) × Apart (a / 4096) held × Held s held

pub record IsSafe (s : Owned) : Type 0 where
  pub bytes : IsBytes s.pmm.page_bitmap
  pub holds : Held s.pmm s.held

Apart-of_free : (s : Pmm) (p : ℕ) (held : List ℕ) → Held s held → in_use s p ≡ false → Apart p held
Apart-of_free s p [] h e = tt
Apart-of_free s p (a ∷ held) h e = (λ same. absurd (ground arith), Apart-of_free s p held h.2 e)

Held-mono :
    (s t : Pmm) (held : List ℕ)
    → Held s held
    → ((r : ℕ) → in_use s r ≡ true → in_use t r ≡ true)
    → Held t held
Held-mono s t [] h more = tt
Held-mono s t (a ∷ held) h more = (more (a / 4096) h.0, h.1, Held-mono s t held h.2 more)

Apart-drop :
    (p a : ℕ) (front back : List ℕ)
    → Apart p (front ++ (a ∷ back))
    → (a / 4096 ≢ p) × Apart p (front ++ back)
Apart-drop p a [] back h = h
Apart-drop p a (b ∷ front) back h =
    let (ne, rest) = Apart-drop p a front back h.1 in (ne, (h.0, rest))

-- Without `a` the others are still held, when only the page of `a` has been given back.
Held-drop :
    (s t : Pmm) (a : ℕ) (front back : List ℕ)
    → Held s (front ++ (a ∷ back))
    → ((r : ℕ) → in_use t r ≡ (if a / 4096 == r then false else in_use s r))
    → Held t (front ++ back)
Held-drop s t a [] [] h given = tt
Held-drop s t a [] (b ∷ back) h given =
    (ground (arith, given (b / 4096)), h.2.1, Held-drop s t a [] back (h.0, h.1.1, h.2.2) given)
Held-drop s t a (b ∷ front) back h given =
    let (ne, rest) = Apart-drop (b / 4096) a front back h.1 in
    (ground (arith, given (b / 4096)), rest, Held-drop s t a front back h.2 given)

pub pmm_alloc_page-IsBytes :
    (s : Pmm) → IsBytes s.page_bitmap → IsBytes (pmm_alloc_page s).1.page_bitmap
unfolding pmm_alloc_page
pmm_alloc_page-IsBytes s h =
    elim (Option-cases
      (first_free (s.mem_end / 4096 - s.mem_start / 4096) (s.mem_start / 4096) s.page_bitmap)) [
        | inl e ↦ rw (e, pmm_alloc_page) h
        | inr (p, e) ↦ rw (e, pmm_alloc_page) (bitmap_set-IsBytes s.page_bitmap p h)
      ]

pmm_free_page-IsBytes :
    (a : ℕ) (s : Pmm) → IsBytes s.page_bitmap → IsBytes (pmm_free_page a s).page_bitmap
unfolding pmm_free_page
pmm_free_page-IsBytes a s h = elim (Bool-cases (bitmap_test s.page_bitmap (a / 4096))) [
  | inl e ↦ rw e (bitmap_clear-IsBytes s.page_bitmap (a / 4096) h)
  | inr e ↦ rw e h
]

Step-IsSafe : {s t : Owned} → Step s t → IsSafe s → IsSafe t
Step-IsSafe (alloc s a e) safe =
    let (p, at, range, unused, below, after) = pmm_alloc_page-some s.pmm a safe.bytes e in
    let page : a / 4096 ≡ p = omega arith in
    record {
      bytes = pmm_alloc_page-IsBytes s.pmm safe.bytes;
      holds = (
        ground (arith, after (a / 4096)),
        rw page (Apart-of_free s.pmm p s.held safe.holds unused),
        Held-mono s.pmm (pmm_alloc_page s.pmm).1 s.held safe.holds (λ r e. ground (arith, after r)),
      );
    }
Step-IsSafe (free s a front back) safe = record {
  bytes = pmm_free_page-IsBytes a s safe.bytes;
  holds =
      Held-drop s (pmm_free_page a s) a front back safe.holds
        (λ r. (pmm_free_page_lem s a r safe.bytes).0);
}

Reach-IsSafe : {s t : Owned} → IsSafe s → Reach s t → IsSafe t
Reach-IsSafe safe here = safe
Reach-IsSafe safe (next r st) = Step-IsSafe st (Reach-IsSafe safe r)

-- After any sequence of allocations, and of frees of pages that are held, `pmm_alloc_page` returns no
-- page that a client holds, provided that at the start the held pages are in use and distinct.
pub pmm_alloc_page-Apart :
    {s t : Owned} (a : ℕ)
    → IsSafe s
    → Reach s t
    → (pmm_alloc_page t.pmm).0 ≡ some a
    → Apart (a / 4096) t.held
pmm_alloc_page-Apart {t} a safe r e =
    let now = Reach-IsSafe safe r in
    let (p, at, range, unused, below, after) = pmm_alloc_page-some t.pmm a now.bytes e in
    let page : a / 4096 ≡ p = omega arith in rw page (Apart-of_free t.pmm p t.held now.holds unused)
