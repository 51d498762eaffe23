-- ===== src/Ring/Write.antt =====
-- `RBWrite` against the window: a message that fits in the block slides in whole.
use native.Mathlib.Nat.{zero-add}
use pmlogdaemon.Base.{
  ℕ, ◌+◌, ◌-◌, ◌≤◌, ◌<◌, ◌≡◌, refl, sym, ap, ap₂, ◌∙◌, false, some, [], ◌∷◌, ◌++◌, inl, inr, arith,
  Bytes, length, take, drop, length-append, length-take, length-drop, take-add, leb, ltb, ltb→lt,
  lt→ltb, leb→le, le→leb, lt→leb_false, le→ltb_false, Bool-cases,
}
use pmlogdaemon.Base.Outcome.{Outcome, done, aborted}
use pmlogdaemon.Ring.{RingBuffer, rb_wrap, rb_copy, rb_write}
use pmlogdaemon.Ring.Bounds.{IsRing, rb_alloc_buff-IsRing, Holds, write_at_lem, rb_valid-Holds}
use pmlogdaemon.Ring.Window.{turn, slide, contents, slide-slide, turn_end, turn-overwrite}

-- What a write has done to a ring: a valid ring of the same setting, with the bytes slid in.
pub record Wrote (rb : RingBuffer) (s : Bytes) (out : Outcome RingBuffer) : Type 0 where
  pub after : RingBuffer
  pub block : Bytes
  pub returns : out ≡ done after
  pub holds : Holds after block
  pub same_size : after.buffer_size ≡ rb.buffer_size
  pub same_level : after.flush_level ≡ rb.flush_level
  pub not_empty : after.is_empty ≡ false
  pub window : turn after.next_write_pos block ≡ slide (contents rb) s

-- A block with `s` written at `n`.
abbrev pub patch : Bytes → ℕ → Bytes → Bytes
patch b n s = take n b ++ (s ++ drop (n + length s) b)

pub length-patch :
    (b : Bytes) (n : ℕ) (s : Bytes) → n + length s ≤ length b → length (patch b n s) ≡ length b
length-patch b n s h = omega (
  arith,
  length-append (take n b) (s ++ drop (n + length s) b),
  length-append s (drop (n + length s) b),
  length-take n b,
  length-drop (n + length s) b,
)

-- The offset one past the bytes written names the same place as its wrapped form.
turn-rb_wrap :
    (rb : RingBuffer) (p : ℕ) (b : Bytes)
    → length b ≡ rb.buffer_size
    → p ≤ rb.buffer_size
    → turn (rb_wrap rb p) b ≡ turn p b
unfolding rb_wrap
turn-rb_wrap rb p b l h = elim (Bool-cases (leb rb.buffer_size p)) [
  | inl e ↦ rw e (sym (turn_end b p (omega (arith, leb→le rb.buffer_size p e))))
  | inr e ↦ rw e refl
]

rb_wrap-lt : (rb : RingBuffer) (p : ℕ) → 0 < rb.buffer_size → rb_wrap rb p < rb.buffer_size
unfolding rb_wrap
rb_wrap-lt rb p h = ground arith

module _ (rb : RingBuffer) (b mem : Bytes) (k : ℕ) (h : Holds rb b) (enough : k ≤ length mem) where
  contents-Holds : contents rb ≡ turn rb.next_write_pos b
  contents-Holds = rw (h.at_hand, contents)

  length_of_take : (m : ℕ) → m ≤ length mem → length (take m mem) ≡ m
  length_of_take m l = omega (arith, length-take m mem)

  rb_copy-straight :
      k ≤ rb.buffer_size - rb.next_write_pos → Wrote rb (take k mem) (rb_copy rb b mem k)
  unfolding rb_copy
  rb_copy-straight fits =
      let n : ℕ = rb.next_write_pos in
      let s : Bytes = take k mem in
      let l : length s ≡ k = length_of_take k enough in
      let r : n + length s ≤ length b = omega (arith, h.full_size, h.pos_in) in
      let size : length (patch b n s) ≡ rb.buffer_size = length-patch b n s r ∙ h.full_size in
      record {
        after = record rb {
          is_empty = false;
          next_write_pos = rb_wrap rb (n + k);
          buff = some (patch b n s);
        };
        block = patch b n s;
        returns = rw (le→ltb_false _ _ fits, write_at_lem b n s r);
        holds = record {
          at_hand = refl;
          full_size = size;
          pos_in = rb_wrap-lt rb (n + k) (omega (arith, h.pos_in));
          big = h.big;
        };
        same_size = refl;
        same_level = refl;
        not_empty = refl;
        window =
            turn-rb_wrap rb (n + k) (patch b n s) size (omega (arith, h.pos_in))
            ∙ ap (λ j. turn (n + j) (patch b n s)) (sym l)
            ∙ turn-overwrite b s n r
            ∙ ap (λ w. slide w s) (sym contents-Holds);
      }

  rb_copy-round :
      rb.buffer_size - rb.next_write_pos < k
      → k ≤ rb.buffer_size
      → Wrote rb (take k mem) (rb_copy rb b mem k)
  unfolding rb_copy
  rb_copy-round round fits =
      let n : ℕ = rb.next_write_pos in
      let t : ℕ = rb.buffer_size - n in
      let s : Bytes = take t mem in
      let u : Bytes = take (k - t) (drop t mem) in
      let ls : length s ≡ t = length_of_take t (omega arith) in
      let lu : length u ≡ k - t =
        omega (arith, length-take (k - t) (drop t mem), length-drop t mem) in
      let r : n + length s ≤ length b = omega (arith, h.full_size, h.pos_in) in
      let b₁ : Bytes = patch b n s in
      let l₁ : length b₁ ≡ rb.buffer_size = length-patch b n s r ∙ h.full_size in
      let r₁ : 0 + length u ≤ length b₁ = omega arith in
      let b₂ : Bytes = patch b₁ 0 u in
      let whole : n + length s ≡ length b₁ = omega (arith, h.pos_in) in
      let split : s ++ u ≡ take k mem =
        sym (take-add t (k - t) mem) ∙ ap (λ j. take j mem) (omega arith) in
      record {
        after = record rb { is_empty = false; next_write_pos = k - t; buff = some b₂ };
        block = b₂;
        returns = rw (lt→ltb _ _ round, write_at_lem b n s r, write_at_lem b₁ 0 u r₁);
        holds = record {
          at_hand = refl;
          full_size = length-patch b₁ 0 u r₁ ∙ l₁;
          pos_in = omega (arith, h.pos_in);
          big = h.big;
        };
        same_size = refl;
        same_level = refl;
        not_empty = refl;
        window =
            ap (λ j. turn j b₂) (sym lu ∙ sym (zero-add (length u)))
            ∙ turn-overwrite b₁ u 0 r₁
            ∙ ap (λ w. slide w u) (sym (turn_end b₁ (n + length s) whole))
            ∙ ap (λ w. slide w u) (turn-overwrite b s n r)
            ∙ slide-slide (turn n b) s u
            ∙ ap₂ slide (sym contents-Holds) split;
      }

  rb_copy-Wrote : k ≤ rb.buffer_size → Wrote rb (take k mem) (rb_copy rb b mem k)
  rb_copy-Wrote fits = elim (Bool-cases (ltb (rb.buffer_size - rb.next_write_pos) k)) [
    | inl e ↦ rb_copy-round (ltb→lt _ _ e) fits
    | inr e ↦ rb_copy-straight (ground arith)
  ]

-- A count within the message and its NUL, and within the block, is written whole: the bytes slide
-- into the window, no assertion fails and no byte goes outside the block.
pub rb_write-Wrote :
    (rb : RingBuffer) (msg : Bytes) (k : ℕ)
    → IsRing rb
    → k ≤ length msg + 1
    → k ≤ rb.buffer_size
    → Wrote rb (take k (msg ++ 0 ∷ [])) (rb_write rb msg k)
unfolding rb_write
rb_write-Wrote rb msg k ring within fits =
    let (rb', b, e, h, c, z, v) = rb_alloc_buff-IsRing ring in
    let enough : k ≤ length (msg ++ 0 ∷ []) = omega (arith, length-append msg (0 ∷ [])) in
    let w = rb_copy-Wrote rb' b (msg ++ 0 ∷ []) k h enough (omega arith) in
    record {
      after = w.after;
      block = w.block;
      returns = rw (e, rb_valid-Holds h, le→leb _ _ within, h.at_hand) w.returns;
      holds = w.holds;
      same_size = w.same_size ∙ z;
      same_level = w.same_level ∙ v;
      not_empty = w.not_empty;
      window = w.window ∙ ap (λ t. slide t (take k (msg ++ 0 ∷ []))) c;
    }

-- A count beyond the message and its NUL fails the second assertion of `RBWrite`.
rb_write-aborted :
    (rb : RingBuffer) (msg : Bytes) (k : ℕ)
    → IsRing rb
    → length msg + 1 < k
    → rb_write rb msg k ≡ aborted
unfolding rb_write
rb_write-aborted rb msg k ring beyond =
    let (rb', b, e, h, c, z, v) = rb_alloc_buff-IsRing ring in
    rw (e, rb_valid-Holds h, lt→leb_false _ _ beyond)
