-- ===== src/Ring/Window.antt =====
-- The view of a ring buffer that forgets where its block starts: a window over the last
-- `bufferSize` bytes written, oldest first.
use pmlogdaemon.Base.{
  ℕ, ◌+◌, ◌≤◌, ◌≡◌, sym, ap, ◌≡⟨◌⟩◌, ◌∎, none, some, ◌++◌, append-nil, append_assoc, arith, Bytes,
  length, take, drop, replicate, length-append, length-take, length-drop, drop-append, take-append,
  drop-append_le, drop-drop, drop_all, take_all,
}
use pmlogdaemon.Ring.{RingBuffer}

-- A block read from offset `p` round to it again.
abbrev pub turn : ℕ → Bytes → Bytes
turn p b = drop p b ++ take p b

-- New bytes push the oldest ones out.
abbrev pub slide : Bytes → Bytes → Bytes
slide w s = drop (length s) (w ++ s)

-- A ring with no block yet reads as zeros, which is what the first call makes of it.
abbrev pub contents : RingBuffer → Bytes
contents rb = elim rb.buff [ none ↦ replicate rb.buffer_size 0 | some b ↦ turn rb.next_write_pos b ]

pub length-turn : (p : ℕ) (b : Bytes) → length (turn p b) ≡ length b
length-turn p b =
    omega (arith, length-append (drop p b) (take p b), length-drop p b, length-take p b)

pub length-slide : (w s : Bytes) → length (slide w s) ≡ length w
length-slide w s = omega (arith, length-drop (length s) (w ++ s), length-append w s)

pub slide-slide : (w s t : Bytes) → slide (slide w s) t ≡ slide w (s ++ t)
slide-slide w s t =
    drop (length t) (drop (length s) (w ++ s) ++ t)
    ≡⟨ ap (drop (length t)) (sym (drop-append_le (w ++ s) t (length s) short)) ⟩
      drop (length t) (drop (length s) ((w ++ s) ++ t))
    ≡⟨ drop-drop ((w ++ s) ++ t) (length s) (length t) ⟩ drop (length s + length t) ((w ++ s) ++ t)
    ≡⟨ (rw (append_assoc, ← length-append s t)) ⟩ slide w (s ++ t) ∎
  where
    short : length s ≤ length (w ++ s)
    short = omega (arith, length-append w s)

pub turn_end : (b : Bytes) (p : ℕ) → p ≡ length b → turn p b ≡ turn 0 b
turn_end b p e =
    rw (e, drop_all b (length b) (omega arith), take_all b (length b) (omega arith))
      (sym (append-nil b))

-- Overwriting the bytes from `n` on, and turning past them, slides them in.
pub turn-overwrite :
    (b s : Bytes) (n : ℕ)
    → n + length s ≤ length b
    → turn (n + length s) (take n b ++ (s ++ drop (n + length s) b)) ≡ slide (turn n b) s
turn-overwrite b s n h =
    turn (n + length s) (take n b ++ (s ++ later))
    ≡⟨ ap (turn (n + length s)) (sym (append_assoc (take n b) s later)) ⟩
      turn (n + length s) ((take n b ++ s) ++ later)
    ≡⟨ (rw (drop-append (take n b ++ s) later e, take-append (take n b ++ s) later e)) ⟩
      later ++ (take n b ++ s)
    ≡⟨ (rw (← drop-drop b n (length s))) ⟩ drop (length s) (drop n b) ++ (take n b ++ s)
    ≡⟨ sym (drop-append_le (drop n b) (take n b ++ s) (length s) short) ⟩
      drop (length s) (drop n b ++ (take n b ++ s))
    ≡⟨ ap (drop (length s)) (sym (append_assoc (drop n b) (take n b) s)) ⟩ slide (turn n b) s ∎
  where
    later : Bytes
    later = drop (n + length s) b

    e : length (take n b ++ s) ≡ n + length s
    e = omega (arith, length-append (take n b) s, length-take n b)

    short : length s ≤ length (drop n b)
    short = omega (arith, length-drop n b)
