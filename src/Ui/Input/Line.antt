-- ===== src/Ui/Input/Line.antt =====
-- The line of ui/input.c stays a terminated string within its buffer, and `input_poll` empties the keyboard.
use mira_os.Base.{
  ℕ, zero, suc, ◌+◌, ◌-◌, ◌<◌, ◌≤◌, ◌≡◌, ◌≢◌, ap, sym, ◌∙◌, true, ◌&&◌, List, [], leb, ltb, length,
  set, get_or, ◌==◌, arith, length-set, get_or-set_self, get_or-set_ne, Bool-cases, inl, inr,
}
use mira_os.Drivers.Keyboard.{Keyboard, keyboard_poll, keyboard_scancode_to_ascii}
use mira_os.Drivers.Keyboard.Queue.{Holds, keyboard_poll-Holds}
use mira_os.Ui.Input.{Input, input_char, poll_loop, input_poll}

-- The line is within the buffer, with a 0 behind it and none in it.
pub record IsLine (s : Input) : Type 0 where
  pub size : length s.input_buf ≡ 256
  pub room : s.input_len < 256
  pub end : get_or s.input_buf s.input_len 0 ≡ 0
  pub text : (i : ℕ) → i < s.input_len → get_or s.input_buf i 0 ≢ 0

module _ (s : Input) (h : IsLine s) where
  erased : IsLine (record {
    input_buf = set s.input_buf (s.input_len - 1) 0;
    input_len = s.input_len - 1;
    input_changed = true;
  })
  erased = record {
    size = length-set s.input_buf (s.input_len - 1) 0 ∙ h.size;
    room = omega (arith, h.room);
    end = get_or-set_self s.input_buf (s.input_len - 1) 0 0 (omega (arith, h.room, h.size));
    text = λ i lt e.
        h.text i (omega arith)
          (sym (get_or-set_ne s.input_buf (s.input_len - 1) i 0 0 (ground arith)) ∙ e);
  }

  emptied :
      (buf : List ℕ)
      → length buf ≡ 256
      → IsLine (record { input_buf = set buf 0 0; input_len = 0; input_changed = true })
  emptied buf size = record {
    size = length-set buf 0 0 ∙ size;
    room = omega arith;
    end = get_or-set_self buf 0 0 0 (omega arith);
    text = λ i lt. absurd (omega arith);
  }

  typed :
      (c : ℕ)
      → 32 ≤ c
      → s.input_len < 255
      → IsLine (record {
        input_buf = set (set s.input_buf s.input_len c) (s.input_len + 1) 0;
        input_len = s.input_len + 1;
        input_changed = true;
      })
  typed c ge lt =
      let one = set s.input_buf s.input_len c in
      let size_one = length-set s.input_buf s.input_len c ∙ h.size in
      record {
        size = length-set one (s.input_len + 1) 0 ∙ size_one;
        room = omega arith;
        end = get_or-set_self one (s.input_len + 1) 0 0 (omega (arith, size_one));
        text = λ i below e.
            let ne : s.input_len + 1 ≢ i = ground arith in
            let at : get_or one i 0 ≡ 0 = sym (get_or-set_ne one (s.input_len + 1) i 0 0 ne) ∙ e in
            elim (Bool-cases (i == s.input_len)) [
              | inl here ↦
                  let last : i ≡ s.input_len = ground arith in
                  let code =
                    get_or-set_self s.input_buf s.input_len c 0 (omega (arith, h.size, h.room)) in
                  absurd (omega (arith, sym code ∙ (ap (λ j. get_or one j 0) (sym last) ∙ at), ge))
              | inr other ↦
                  h.text i (ground arith)
                    (sym (get_or-set_ne s.input_buf s.input_len i c 0 (ground arith)) ∙ at)
            ];
      }

-- Every branch of the edit keeps the line a terminated string within the buffer.
input_char-IsLine : (s : Input) (c : ℕ) → IsLine s → IsLine (input_char s c)
unfolding input_char
input_char-IsLine s c h = elim (Bool-cases (c == 8)) [
  | inl back ↦ elim (Bool-cases (ltb 0 s.input_len)) [
    | inl some_left ↦ rw (back, input_char) (rw some_left (erased s h))
    | inr empty ↦ rw (back, input_char) (rw empty h)
  ]
  | inr other ↦ elim (Bool-cases (c == 10)) [
    | inl enter ↦
        rw (other, input_char)
          (rw enter (
            emptied s h (set s.input_buf s.input_len 0)
              (length-set s.input_buf s.input_len 0 ∙ h.size)))
    | inr key ↦ elim (Bool-cases (leb 32 c && ltb s.input_len 255)) [
      | inl fits ↦
          rw (other, input_char) (rw (key, fits) (typed s h c (ground arith) (ground arith)))
      | inr full ↦ rw (other, input_char) (rw (key, full) h)
    ]
  ]
]

poll_loop_lem :
    (f : ℕ) (k : Keyboard) (q : List ℕ) (s : Input)
    → Holds k q
    → IsLine s
    → length q < f
    → Holds (poll_loop f k s).0 [] × IsLine (poll_loop f k s).1
unfolding poll_loop
poll_loop_lem zero k q s h l lt = absurd (omega arith)
poll_loop_lem (suc f) k q s h l lt = elim (keyboard_poll-Holds k q h) [
  | inl (none_left, same) ↦ rw (same, poll_loop) (rw same (rw none_left at h, l))
  | inr (x, r, split, code, h') ↦
      let s' = input_char s (keyboard_scancode_to_ascii (keyboard_poll k).1 x) in
      let rest =
        poll_loop_lem f (keyboard_poll k).1 r s' h'
          (input_char-IsLine s (keyboard_scancode_to_ascii (keyboard_poll k).1 x) l)
          (omega (arith, ap length split)) in
      rw (code, poll_loop) rest
]

-- `input_poll` takes every code that waits in the keyboard's queue, and the line stays a terminated string
-- within its buffer.
pub input_poll_lem :
    (k : Keyboard) (q : List ℕ) (s : Input)
    → Holds k q
    → IsLine s
    → Holds (input_poll k s).0 [] × IsLine (input_poll k s).1
unfolding input_poll
input_poll_lem k q s h l = poll_loop_lem 128 k q s h l (omega (arith, h.room))
