-- ===== src/Ring/Flush.antt =====
-- `RBFlush` against the window: it hands on exactly the messages in it, and clears it.
use pmlogdaemon.Base.{
  ℕ, zero, suc, ◌+◌, ◌≤◌, ◌<◌, ◌≡◌, ◌≢◌, refl, sym, ap, ◌∙◌, true, false, not, ◌&&◌, List, [], ◌∷◌,
  ◌++◌, append-nil, append_assoc, arith, Bytes, length, take, drop, replicate, get_or, length-take,
  ◌==◌, if◌then◌else◌, drop-cons, drop_all, inl, inr, Bool-cases, ==_iff,
}
use pmlogdaemon.Base.Outcome.{done}
use pmlogdaemon.Ring.{RingBuffer, rb_wrap, rb_step, rb_flush_loop, rb_flush}
use pmlogdaemon.Ring.Bounds.{
  Holds, IsRing, allocated, cleared, cleared-Holds, rb_clear_lem, rb_alloc_buff-IsRing,
  rb_valid-Holds,
}
use pmlogdaemon.Ring.Messages.{messages_from, messages}
use pmlogdaemon.Ring.Window.{contents}

-- The variables of the loop after it has read `c`.
abbrev cur_after : Bytes → ℕ → Bytes
cur_after cur c = if c == 0 then [] else cur ++ c ∷ []

abbrev out_after : List Bytes → Bytes → ℕ → List Bytes
out_after out cur c = if c == 0 && not (length cur == 0) then out ++ cur ∷ [] else out

-- One round keeps what the loop is to hand on in all.
round-messages :
    (c : ℕ) (cur : Bytes) (out : List Bytes) (w : Bytes)
    → out_after out cur c ++ messages_from (cur_after cur c) w ≡ out ++ messages_from cur (c ∷ w)
round-messages c cur out w =
    ground (arith, append_assoc out (cur ∷ []) (messages_from [] w), append-nil out)

module _ (rb : RingBuffer) (b : Bytes) (h : Holds rb b) where
  rb_step-lt : (n : ℕ) → n + 1 < rb.buffer_size → rb_step rb n ≡ suc n
  unfolding rb_wrap
  rb_step-lt n l = ground arith

  rb_step-last : (n : ℕ) → n + 1 ≡ rb.buffer_size → rb_step rb n ≡ 0
  unfolding rb_wrap
  rb_step-last n e = ground arith

  -- The loop stops at the writing position, after it has used the byte.
  loop-stop :
      (i n : ℕ) (cur : Bytes) (out : List Bytes)
      → rb_step rb n ≡ rb.next_write_pos
      → rb_flush_loop rb b (suc i) n cur out ≡ out ++ messages_from cur (get_or b n 0 ∷ [])
  unfolding rb_flush_loop
  loop-stop i n cur out e =
      let back : (rb_step rb n == rb.next_write_pos) ≡ true = (==_iff _ _).1 e in
      rw back (sym (append-nil _) ∙ round-messages (get_or b n 0) cur out [])

  -- Anywhere else it goes on.
  loop-next :
      (i n n' : ℕ) (cur : Bytes) (out : List Bytes)
      → rb_step rb n ≡ n'
      → n' ≢ rb.next_write_pos
      → rb_flush_loop rb b (suc i) n cur out
        ≡ rb_flush_loop rb b i n' (cur_after cur (get_or b n 0)) (out_after out cur (get_or b n 0))
  unfolding rb_flush_loop
  loop-next i n n' cur out e ne =
      let on : (n' == rb.next_write_pos) ≡ false = ground arith in rw (e, on)

  length-low : length (take rb.next_write_pos b) ≡ rb.next_write_pos
  length-low = omega (arith, length-take rb.next_write_pos b, h.full_size, h.pos_in)

  get_or-take : (m n : ℕ) (xs : Bytes) → n < m → get_or (take m xs) n 0 ≡ get_or xs n 0
  get_or-take zero n xs l = absurd (omega arith)
  get_or-take (suc m) n [] l = refl
  get_or-take (suc m) zero (x ∷ xs) l = refl
  get_or-take (suc m) (suc n) (x ∷ xs) l = get_or-take m n xs (omega arith)

  low-cons :
      (n : ℕ)
      → n < rb.next_write_pos
      → drop n (take rb.next_write_pos b) ≡ get_or b n 0 ∷ drop (suc n) (take rb.next_write_pos b)
  low-cons n l =
      drop-cons (take rb.next_write_pos b) n 0 (omega (arith, length-low))
      ∙ ap (λ c. c ∷ drop (suc n) (take rb.next_write_pos b)) (get_or-take rb.next_write_pos n b l)

  -- Below the writing position, the loop hands on the messages up to it.
  loop-low :
      (i n : ℕ) (cur : Bytes) (out : List Bytes)
      → n < rb.next_write_pos
      → n + i ≡ rb.next_write_pos
      → rb_flush_loop rb b i n cur out
        ≡ out ++ messages_from cur (drop n (take rb.next_write_pos b))
  loop-low zero n cur out l e = absurd (omega arith)
  loop-low (suc i) n cur out l e = elim (Bool-cases (suc n == rb.next_write_pos)) [
    | inl end ↦
        let here : suc n ≡ rb.next_write_pos = (==_iff _ _).0 end in
        rw (low-cons n l, drop_all (take rb.next_write_pos b) (suc n) (omega (arith, length-low)))
          (loop-stop i n cur out (rb_step-lt n (omega (arith, h.pos_in)) ∙ here))
    | inr more ↦
        let ne : suc n ≢ rb.next_write_pos = ground arith in
        rw (low-cons n l) (
          loop-next i n (suc n) cur out (rb_step-lt n (omega (arith, h.pos_in))) ne
          ∙ loop-low i (suc n) _ _ (omega arith) (omega arith)
          ∙ round-messages (get_or b n 0) cur out (drop (suc n) (take rb.next_write_pos b)))
  ]

  -- At the end of the block the loop stops, or goes round to the start.
  loop-end :
      (i n : ℕ) (cur : Bytes) (out : List Bytes)
      → rb_step rb n ≡ 0
      → i ≡ rb.next_write_pos
      → rb_flush_loop rb b (suc i) n cur out
        ≡ out ++ messages_from cur (get_or b n 0 ∷ take rb.next_write_pos b)
  loop-end i n cur out e rest = elim (Bool-cases (0 == rb.next_write_pos)) [
    | inl start ↦
        let here : 0 ≡ rb.next_write_pos = (==_iff _ _).0 start in
        loop-stop i n cur out (e ∙ here)
        ∙ ap (λ k. out ++ messages_from cur (get_or b n 0 ∷ take k b)) here
    | inr inside ↦
        let ne : 0 ≢ rb.next_write_pos = ground arith in
        loop-next i n 0 cur out e ne
        ∙ loop-low i 0 _ _ (ground arith) (omega arith)
        ∙ round-messages (get_or b n 0) cur out (take rb.next_write_pos b)
  ]

  -- From there on, it goes to the end of the block and round.
  loop-high :
      (i n : ℕ) (cur : Bytes) (out : List Bytes)
      → rb.next_write_pos ≤ n
      → n < rb.buffer_size
      → n + i ≡ rb.buffer_size + rb.next_write_pos
      → rb_flush_loop rb b i n cur out
        ≡ out ++ messages_from cur (drop n b ++ take rb.next_write_pos b)
  loop-high zero n cur out l m e = absurd (omega arith)
  loop-high (suc i) n cur out l m e = elim (Bool-cases (suc n == rb.buffer_size)) [
    | inl end ↦
        let at_end : suc n ≡ rb.buffer_size = (==_iff _ _).0 end in
        let none_left : length b ≤ suc n = omega (arith, h.full_size) in
        let back : rb_step rb n ≡ 0 = rb_step-last n (omega arith) in
        rw (drop-cons b n 0 (omega (arith, h.full_size)), drop_all b (suc n) none_left)
          (loop-end i n cur out back (omega arith))
    | inr more ↦
        let ne : suc n ≢ rb.buffer_size = ground arith in
        let away : suc n ≢ rb.next_write_pos = omega arith in
        rw (drop-cons b n 0 (omega (arith, h.full_size))) (
          loop-next i n (suc n) cur out (rb_step-lt n (omega arith)) away
          ∙ loop-high i (suc n) _ _ (omega arith) (omega arith) (omega arith)
          ∙ round-messages (get_or b n 0) cur out (drop (suc n) b ++ take rb.next_write_pos b))
  ]

  -- The loop, from the writing position round to it.
  pub rb_flush_loop-messages :
      rb_flush_loop rb b rb.buffer_size rb.next_write_pos [] [] ≡ messages (contents rb)
  rb_flush_loop-messages =
      loop-high rb.buffer_size rb.next_write_pos [] [] (omega arith) h.pos_in (omega arith)
      ∙ rw (h.at_hand, contents)

-- `RBFlush` hands on exactly the messages in the window, oldest first, and leaves the ring cleared:
-- of the same settings, marked empty and full of zeros. Nothing fails and nothing is read or
-- written outside the block.
pub rb_flush-messages :
    (rb : RingBuffer)
    → IsRing rb
    → (rb' : RingBuffer) × (rb_flush rb ≡ done (messages (contents rb), rb'))
      × IsRing rb'
      × (rb'.is_empty ≡ true)
      × (contents rb' ≡ replicate rb.buffer_size 0)
      × (rb'.buffer_size ≡ rb.buffer_size)
      × (rb'.flush_level ≡ rb.flush_level)
unfolding rb_flush
rb_flush-messages rb ring =
    let (r, b, e, h, c, z, v) = rb_alloc_buff-IsRing ring in
    (
      cleared r,
      rw (e, rb_valid-Holds h, h.at_hand, rb_clear_lem r h.at_hand h.full_size h.big)
          (rw (rb_flush_loop-messages r b h, c)),
      allocated (replicate r.buffer_size 0) (cleared-Holds r h.big),
      refl,
      append-nil (replicate r.buffer_size 0) ∙ ap (λ k. replicate k 0) z,
      z,
      v,
    )
