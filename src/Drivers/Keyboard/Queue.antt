-- ===== src/Drivers/Keyboard/Queue.antt =====
-- The ring of scan codes as a bounded queue.
use mira_os.Base.{
  ℕ, suc, ◌+◌, ◌%◌, ◌<◌, ◌≡◌, ◌≢◌, sym, ap, ◌∙◌, ◌⊎◌, inl, inr, refl, false, ◌==◌, none, some, List,
  [], ◌∷◌, ◌++◌, length, get_or, set, arith, pos, negsuc, length-append, length-set,
  get_or-set_self, get_or-set_ne, get_or-append_left, get_or-append_right,
}
use native.Mathlib.Decide.{dec_lt}
use mira_os.Drivers.Keyboard.{Keyboard, kbd_buf_size, kbd_push, keyboard_poll}

-- The ring holds the queue `q`, oldest code first.
pub record Holds (k : Keyboard) (q : List ℕ) : Type 0 where
  pub size : length k.kbd_buffer ≡ kbd_buf_size
  pub tail_in : k.kbd_tail < kbd_buf_size
  pub room : length q < kbd_buf_size
  pub head_at : k.kbd_head ≡ (k.kbd_tail + length q) % kbd_buf_size
  pub codes :
      (i : ℕ)
      → i < length q
      → get_or k.kbd_buffer ((k.kbd_tail + i) % kbd_buf_size) 0 ≡ get_or q i 0

codes_set :
    (k : Keyboard) (q : List ℕ) (sc : ℕ)
    → Holds k q
    → length q < 127
    → (i : ℕ) → i < length (q ++ (sc ∷ []))
    → get_or (set k.kbd_buffer k.kbd_head sc) ((k.kbd_tail + i) % kbd_buf_size) 0
      ≡ get_or (q ++ (sc ∷ [])) i 0
codes_set k q sc h few i lt = elim (dec_lt i (length q)) [
  | yes old ↦
      let apart : k.kbd_head ≢ (k.kbd_tail + i) % kbd_buf_size =
        omega (arith, h.head_at, h.tail_in) in
      get_or-set_ne k.kbd_buffer k.kbd_head ((k.kbd_tail + i) % kbd_buf_size) sc 0 apart
      ∙ h.codes i old
      ∙ sym (get_or-append_left q (sc ∷ []) i 0 old)
  | no new ↦
      let at : i ≡ length q + 0 = omega (arith, length-append q (sc ∷ [])) in
      let place : (k.kbd_tail + i) % kbd_buf_size ≡ k.kbd_head = omega (arith, h.head_at) in
      let inside : k.kbd_head < length k.kbd_buffer = omega (arith, h.head_at, h.size) in
      rw place (
        get_or-set_self k.kbd_buffer k.kbd_head sc 0 inside
        ∙ sym (ap (λ j. get_or (q ++ (sc ∷ [])) j 0) at ∙ get_or-append_right q (sc ∷ []) 0 0))
]

-- `kbd_push` puts the code behind those that wait, while fewer than 127 wait; with 127 it returns -1
-- and drops the code.
pub kbd_push-Holds :
    (k : Keyboard) (q : List ℕ) (sc : ℕ)
    → Holds k q
    → ((length q < 127) × ((kbd_push k sc).0 ≡ pos 0) × Holds (kbd_push k sc).1 (q ++ (sc ∷ [])))
      ⊎ ((length q ≡ 127) × (kbd_push k sc ≡ (negsuc 0, k)))
unfolding kbd_push
kbd_push-Holds k q sc h = elim (dec_lt (length q) 127) [
  | yes lt ↦ inl (lt, ground (arith, h.head_at, h.tail_in), holds lt)
  | no full ↦ inr (omega (arith, h.room), ground (arith, h.head_at, h.tail_in, h.room))
]
  where
    holds : length q < 127 → Holds (kbd_push k sc).1 (q ++ (sc ∷ []))
    holds lt =
        let go : ((k.kbd_head + 1) % 128 == k.kbd_tail) ≡ false =
          ground (arith, h.head_at, h.tail_in) in
        rw (go, kbd_push)
          (record {
            size = omega (arith, length-set k.kbd_buffer k.kbd_head sc, h.size);
            tail_in = h.tail_in;
            room = omega (arith, length-append q (sc ∷ []));
            head_at = omega (arith, length-append q (sc ∷ []), h.head_at, h.tail_in);
            codes = codes_set k q sc h lt;
          })

-- `keyboard_poll` takes the oldest code, and returns false exactly when none waits.
pub keyboard_poll-Holds :
    (k : Keyboard) (q : List ℕ)
    → Holds k q
    → ((q ≡ []) × (keyboard_poll k ≡ (none, k)))
      ⊎ ((x : ℕ) × (r : List ℕ) × (q ≡ x ∷ r)
          × ((keyboard_poll k).0 ≡ some x)
          × Holds (keyboard_poll k).1 r)
unfolding keyboard_poll
keyboard_poll-Holds k [] h = inl (refl, ground (arith, h.head_at, h.tail_in))
keyboard_poll-Holds k (x ∷ r) h =
    let go : (k.kbd_head == k.kbd_tail) ≡ false = ground (arith, h.head_at, h.tail_in, h.room) in
    inr (
      x,
      r,
      refl,
      ground (arith, h.codes 0, h.tail_in),
      rw (go, keyboard_poll)
          (record {
            size = h.size;
            tail_in = omega arith;
            room = omega (arith, h.room);
            head_at = omega (arith, h.head_at);
            codes = λ i lt.
                let e : ((k.kbd_tail + 1) % 128 + i) % 128 ≡ (k.kbd_tail + suc i) % 128 =
                  omega arith in
                rw e (h.codes (suc i) (omega arith));
          }),
    )
