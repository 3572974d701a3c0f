-- ===== src/Ui/Windows/Order.antt =====
-- The order of the windows of ui/widgets/window.c after its operations.
use mira_os.Base.{
  ℕ, zero, suc, ◌+◌, ◌-◌, ◌<◌, ◌≤◌, ◌≡◌, refl, ap, sym, ◌∙◌, true, false, List, [], ◌∷◌, some,
  length, take, get_elem?, set, leb, if◌then◌else◌, arith, Option-cases, ◌⊎◌, inl, inr, length-set,
}
use mira_os.Ui.Windows.{
  Window, Windows, window_count, clear_focus, copy_window, shift_up, shift_down,
  window_bring_to_front, window_close,
}

-- The list without its element at a position
abbrev pub remove : ℕ → List Window → List Window
remove n [] = []
remove zero (x ∷ ws) = ws
remove (suc n) (x ∷ ws) = x ∷ remove n ws

copy_window-cons :
    (to from : ℕ) (x : Window) (ws : List Window)
    → copy_window (suc to) (suc from) (x ∷ ws) ≡ x ∷ copy_window to from ws
unfolding copy_window
copy_window-cons to from x ws = elim (Option-cases (get_elem? ws from)) [
  | inl e ↦ rw (e, copy_window) refl
  | inr (y, e) ↦ rw (e, copy_window) refl
]

remove-copy_up :
    (i : ℕ) (ws : List Window)
    → suc i < length ws
    → remove i (copy_window (suc i) i ws) ≡ remove (suc i) ws
unfolding copy_window
remove-copy_up i [] h = absurd (omega arith)
remove-copy_up zero (x ∷ []) h = absurd (omega arith)
remove-copy_up zero (x ∷ y ∷ ws) h = refl
remove-copy_up (suc i) (x ∷ ws) h =
    rw (copy_window-cons (suc i) i x ws) (ap (λ t. x ∷ t) (remove-copy_up i ws (omega arith)))

remove-copy_down :
    (i : ℕ) (ws : List Window)
    → suc i < length ws
    → remove (suc i) (copy_window i (suc i) ws) ≡ remove i ws
unfolding copy_window
remove-copy_down i [] h = absurd (omega arith)
remove-copy_down zero (x ∷ []) h = absurd (omega arith)
remove-copy_down zero (x ∷ y ∷ ws) h = refl
remove-copy_down (suc i) (x ∷ ws) h =
    rw (copy_window-cons i (suc i) x ws) (ap (λ t. x ∷ t) (remove-copy_down i ws (omega arith)))

length-copy_window : (to from : ℕ) (ws : List Window) → length (copy_window to from ws) ≡ length ws
unfolding copy_window
length-copy_window to from ws = elim (Option-cases (get_elem? ws from)) [
  | inl e ↦ rw (e, copy_window) refl
  | inr (y, e) ↦ rw (e, copy_window) (length-set ws to y)
]

head_of-copy :
    (to from : ℕ) (x : Window) (ws : List Window)
    → (us : List Window) × (copy_window (suc to) from (x ∷ ws) ≡ x ∷ us)
unfolding copy_window
head_of-copy to from x ws = elim (Option-cases (get_elem? (x ∷ ws) from)) [
  | inl e ↦ (ws, rw (e, copy_window) refl)
  | inr (y, e) ↦ (set ws to y, rw (e, copy_window) refl)
]

-- The shift up leaves the first window and, behind it, the others in their order without the one at `i`.
shift_up_lem :
    (i : ℕ) (x : Window) (ws : List Window)
    → i ≤ length ws
    → shift_up i (x ∷ ws) ≡ x ∷ remove i (x ∷ ws)
unfolding shift_up
shift_up_lem zero x ws h = refl
shift_up_lem (suc i) x ws h =
    let (us, e) = head_of-copy i i x ws in
    let l = length-copy_window (suc i) i (x ∷ ws) in
    rw e (
      shift_up_lem i x us (omega (arith, l, ap length e))
      ∙ ap (λ t. x ∷ t) (ap (remove i) (sym e) ∙ remove-copy_up i (x ∷ ws) (omega arith)))

take-last : (i : ℕ) (ws : List Window) → length ws ≡ suc i → take i ws ≡ remove i ws
take-last i [] h = absurd (omega arith)
take-last zero (x ∷ []) h = refl
take-last zero (x ∷ y ∷ ws) h = absurd (omega arith)
take-last (suc i) (x ∷ ws) h = ap (λ t. x ∷ t) (take-last i ws (omega arith))

-- The shift down from `i` and the drop of the last place remove the window at `i`.
shift_down_lem :
    (n i m : ℕ) (ws : List Window)
    → m ≡ n + i
    → length ws ≡ suc m
    → take m (shift_down n i ws) ≡ remove i ws
unfolding shift_down
shift_down_lem zero i m ws e h =
    let same : m ≡ i = omega arith in rw same (take-last i ws (omega arith))
shift_down_lem (suc n) i m ws e h =
    let l = length-copy_window i (suc i) ws in
    shift_down_lem n (suc i) m (copy_window i (suc i) ws) (omega arith) (omega arith)
    ∙ remove-copy_down i ws (omega arith)

length-remove : (i : ℕ) (ws : List Window) → i < length ws → suc (length (remove i ws)) ≡ length ws
length-remove i [] h = absurd (omega arith)
length-remove zero (x ∷ ws) h = refl
length-remove (suc i) (x ∷ ws) h = ap suc (length-remove i ws (omega arith))

focus_in :
    (num f count : ℕ)
    → suc count ≡ num
    → ((if leb (num - 1) f then num - 1 - 1 else f) < count)
      ⊎ ((if leb (num - 1) f then num - 1 - 1 else f) ≡ 0)
focus_in num f zero e = inr (ground arith)
focus_in num f (suc count) e = inl (ground arith)

-- `window_close` of an index in use removes that window and keeps the others in their order; the focus
-- stays on a window in use if one is left.
window_close_lem :
    (index : ℕ) (s : Windows)
    → index < length (s.windows)
    → ((window_close index s).windows ≡ remove index (s.windows))
      × (((window_close index s).focused_window < window_count (window_close index s))
          ⊎ ((window_close index s).focused_window ≡ 0))
unfolding window_close window_count
window_close_lem index s h =
    let inside : leb (length (s.windows)) index ≡ false = ground arith in
    let shifted =
      shift_down_lem (length (s.windows) - 1 - index) index (length (s.windows) - 1) (s.windows)
        (omega arith) (omega arith) in
    let left = length-remove index (s.windows) h in
    rw (inside, window_close)
      (
        shifted,
        (focus_in (length (s.windows)) (s.focused_window) _
            (ap (λ ws. suc (length ws)) shifted ∙ left)),
      )

length-clear_focus : (ws : List Window) → length (clear_focus ws) ≡ length ws
unfolding clear_focus
length-clear_focus [] = refl
length-clear_focus (x ∷ ws) = ap suc (length-clear_focus ws)

get-clear_focus :
    (ws : List Window) (i : ℕ) (x : Window)
    → get_elem? ws i ≡ some x
    → get_elem? (clear_focus ws) i ≡ some (record x { focused = false })
unfolding clear_focus
get-clear_focus [] i x h = absurd (ground (arith, h))
get-clear_focus (y ∷ ws) zero x h = ground (arith, h)
get-clear_focus (y ∷ ws) (suc i) x h = get-clear_focus ws i x h

front :
    (i : ℕ) (ws : List Window) (x : Window)
    → i < length ws
    → set (shift_up i ws) 0 x ≡ x ∷ remove i ws
front i [] x h = absurd (omega arith)
front i (y ∷ ws) x h = rw (shift_up_lem i y ws (omega arith)) refl

remove-clear_focus :
    (i : ℕ) (ws : List Window) → remove i (clear_focus ws) ≡ clear_focus (remove i ws)
unfolding clear_focus
remove-clear_focus i [] = refl
remove-clear_focus zero (x ∷ ws) = refl
remove-clear_focus (suc i) (x ∷ ws) =
    ap (λ t. record x { focused = false } ∷ t) (remove-clear_focus i ws)

-- `window_bring_to_front` of the window at an index in use puts it at index 0 and gives it the focus; the
-- others follow in their order, without a gap and each without the focus, and are otherwise what they were.
pub window_bring_to_front_lem :
    (index : ℕ) (s : Windows) (x : Window)
    → get_elem? (s.windows) index ≡ some x
    → index < length (s.windows)
    → (others : List Window) × (window_bring_to_front index s
        ≡ record s { windows = record x { focused = true } ∷ others; focused_window = 0 })
      × (suc (length others) ≡ length (s.windows))
      × ((i : ℕ) (y : Window)
          → get_elem? (remove index (s.windows)) i ≡ some y
          → get_elem? others i ≡ some (record y { focused = false }))
unfolding window_bring_to_front
window_bring_to_front_lem index s x h lt =
    let there = get-clear_focus (s.windows) index x h in
    let all =
      front index (clear_focus (s.windows)) (record x { focused = true })
        (omega (arith, length-clear_focus (s.windows), lt)) in
    let moved = remove-clear_focus index (s.windows) in
    (
      clear_focus (remove index (s.windows)),
      rw (there, window_bring_to_front) (rw all (rw moved refl)),
      ap suc (length-clear_focus (remove index (s.windows))) ∙ length-remove index (s.windows) lt,
      λ i y at. get-clear_focus (remove index (s.windows)) i y at,
    )
