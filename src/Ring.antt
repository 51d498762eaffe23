-- ===== src/Ring.antt =====
-- src/ring.c and src/ring.h: the ring buffer that holds a context's messages until a flush.
-- A pointer into `buff` is its offset. `RBNew` is the only writer of `bufferSize`, and it stores at
-- least `RBMinBufferSize`, so that field is a natural number.
pub mod Bounds
pub mod Flush
pub mod History
pub mod Messages
pub mod Window
pub mod Write
use pmlogdaemon.Base.{
  ℕ, zero, suc, ◌+◌, ◌-◌, Bool, true, false, not, ◌&&◌, Option, none, some, List, [], ◌∷◌, ◌++◌,
  Bytes, length, take, drop, replicate, get_or, ltb, leb, ◌==◌, if◌then◌else◌,
}
use pmlogdaemon.Base.Int.{ℤ, pos, leb_ℤ, ltb_ℤ, pos_part}
use pmlogdaemon.Base.Outcome.{Outcome, done, aborted, overflow, ◌>>=◌, ◌>>◌, g_assert}

-- `PmLogRingBuffer_t`
pub record RingBuffer : Type 0 where
  pub is_empty : Bool
  pub buffer_size : ℕ
  pub flush_level : ℤ
  pub buff : Option Bytes
  pub next_write_pos : ℕ

-- `RBMinBufferSize`
abbrev pub min_buffer_size : ℕ
min_buffer_size = 2048

-- `memcpy` to an offset of a block; a copy past the end of the block is an overflow.
unfoldable pub write_at : Bytes → ℕ → Bytes → Outcome Bytes
write_at block p src =
    if leb (p + length src) (length block)
    then done (take p block ++ (src ++ drop (p + length src) block))
    else overflow

-- `RBClear`
unfoldable pub rb_clear : RingBuffer → Outcome RingBuffer
unfolding write_at
rb_clear rb = elim rb.buff [
  | none ↦ aborted
  | some b ↦ do
    g_assert (leb min_buffer_size rb.buffer_size)
    b' ← write_at b 0 (replicate rb.buffer_size 0)
    done (record rb { is_empty = true; next_write_pos = 0; buff = some b' })
]

-- `RBNew`: no buffer is made when both settings are off.
unfoldable pub rb_new : ℤ → ℤ → Option RingBuffer
rb_new buffer_size flush_level =
    if leb_ℤ buffer_size (pos 0) && leb_ℤ flush_level (pos 0)
    then none
    else some (record {
      is_empty = true;
      buffer_size =
          if ltb_ℤ buffer_size (pos min_buffer_size) then min_buffer_size else pos_part buffer_size;
      flush_level = flush_level;
      buff = none;
      next_write_pos = 0;
    })

-- `RBValidPos` and `RBValid`
unfoldable pub rb_valid_pos : RingBuffer → ℕ → Bool
rb_valid_pos rb p = ltb p rb.buffer_size

unfoldable pub has_buff : RingBuffer → Bool
has_buff rb = elim rb.buff [ none ↦ false | some _ ↦ true ]

unfoldable pub rb_valid : RingBuffer → Bool
unfolding rb_valid_pos has_buff
rb_valid rb =
    if ltb rb.buffer_size min_buffer_size
    then false
    else if not rb.is_empty && not (has_buff rb)
    then false
    else rb_valid_pos rb rb.next_write_pos

-- `RBStep` to the offset `p`, one past the byte at hand: the end of the block is its start.
unfoldable pub rb_wrap : RingBuffer → ℕ → ℕ
rb_wrap rb p = if leb rb.buffer_size p then 0 else p

abbrev pub rb_step : RingBuffer → ℕ → ℕ
rb_step rb p = rb_wrap rb (p + 1)

-- `RBAllocBuff`: `g_malloc` leaves the bytes open, and `RBClear` writes them all.
unfoldable pub rb_alloc_buff : RingBuffer → Outcome RingBuffer
unfolding rb_clear
rb_alloc_buff rb = elim rb.buff [
  | none ↦ rb_clear (record rb { buff = some (replicate rb.buffer_size 0) })
  | some b ↦ done rb
]

-- `RBWrite` behind its assertions: `mem` is the message with its NUL, of which `k` bytes are copied.
-- `n + (numBytes - 1)` and the step behind it are `n + numBytes`.
unfoldable pub rb_copy : RingBuffer → Bytes → Bytes → ℕ → Outcome RingBuffer
unfolding rb_wrap
rb_copy rb b mem k =
    let n : ℕ = rb.next_write_pos in
    let tail_len : ℕ = rb.buffer_size - n in
    if ltb tail_len k
    then (do
      b₁ ← write_at b n (take tail_len mem)
      b₂ ← write_at b₁ 0 (take (k - tail_len) (drop tail_len mem))
      done (record rb { is_empty = false; next_write_pos = k - tail_len; buff = some b₂ }))
    else (do
      b₁ ← write_at b n (take k mem)
      done (record rb { is_empty = false; next_write_pos = rb_wrap rb (n + k); buff = some b₁ }))

-- `RBWrite`. A negative `numBytes` is a huge `size_t` in the second assertion, which then fails, so
-- the count is a natural number.
unfoldable pub rb_write : RingBuffer → Bytes → ℕ → Outcome RingBuffer
unfolding rb_alloc_buff rb_valid rb_copy
rb_write rb msg num_bytes = do
  rb' ← rb_alloc_buff rb
  g_assert (rb_valid rb')
  g_assert (leb num_bytes (length msg + 1))
  elim rb'.buff [ none ↦ overflow | some b ↦ rb_copy rb' b (msg ++ 0 ∷ []) num_bytes ]

-- The loop of `RBFlush`, with `i` rounds left: `cur` is `msg[0 .. j)`, `out` the messages handed to
-- the callback so far.
unfoldable pub rb_flush_loop : RingBuffer → Bytes → ℕ → ℕ → Bytes → List Bytes → List Bytes
unfolding rb_wrap
rb_flush_loop rb b zero n cur out = out
rb_flush_loop rb b (suc i) n cur out =
    let c : ℕ = get_or b n 0 in
    let n' : ℕ = rb_step rb n in
    let cur' : Bytes = if c == 0 then [] else cur ++ c ∷ [] in
    let out' : List Bytes = if c == 0 && not (length cur == 0) then out ++ cur ∷ [] else out in
    let rest = rb_flush_loop rb b i n' cur' out' in if n' == rb.next_write_pos then out' else rest

-- `RBFlush`: the messages handed to the callback, in order, and the cleared buffer.
unfoldable pub rb_flush : RingBuffer → Outcome (List Bytes × RingBuffer)
unfolding rb_alloc_buff rb_valid rb_flush_loop rb_clear
rb_flush rb = do
  rb' ← rb_alloc_buff rb
  g_assert (rb_valid rb')
  elim rb'.buff [
    | none ↦ overflow
    | some b ↦ do
      cleared ← rb_clear rb'
      done (rb_flush_loop rb' b rb'.buffer_size rb'.next_write_pos [] [], cleared)
  ]
