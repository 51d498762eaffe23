-- ===== src/Tests/Rings.antt =====
-- Runs of the ring of src/ring.c.
use pmlogdaemon.Base.{
  ◌≡◌, refl, true, none, some, [], ◌∷◌, ◌++◌, arith, Bytes, codes, length, take, drop, replicate,
}
use pmlogdaemon.Base.Int.{pos}
use pmlogdaemon.Base.Outcome.{done}
use pmlogdaemon.Ring.{RingBuffer, rb_new, rb_write, rb_flush}
use pmlogdaemon.Ring.Bounds.{IsRing, unallocated}
use pmlogdaemon.Ring.Flush.{rb_flush-messages}
use pmlogdaemon.Ring.History.{write_then_flush, flush-write_all, flush-write_all_newest}
use pmlogdaemon.Ring.Messages.{messages, stream}
use pmlogdaemon.Ring.Window.{contents, slide}
use pmlogdaemon.Ring.Write.{Wrote, rb_write-Wrote}

abbrev pub fresh : RingBuffer
fresh = record {
  is_empty = true;
  buffer_size = 2048;
  flush_level = pos 3;
  buff = none;
  next_write_pos = 0;
}

pub fresh-IsRing : IsRing fresh
fresh-IsRing = unallocated refl refl (omega arith)

abbrev hello : Bytes
hello = codes "hello"

abbrev bye : Bytes
bye = codes "good bye"

-- A message that leaves room for seven bytes.
abbrev long : Bytes
long = replicate 2040 b'a'

rb_new_small : rb_new (pos 100) (pos 3) ≡ some fresh
unfolding rb_new
rb_new_small = refl

flush_empty : (rb' : RingBuffer) × (rb_flush fresh ≡ done ([], rb'))
unfolding rb_flush
flush_empty = (_, refl)

flush-write_all_example :
    (rb' : RingBuffer) × (write_then_flush fresh (hello ∷ bye ∷ []) ≡ done (hello ∷ bye ∷ [], rb'))
flush-write_all_example =
    flush-write_all fresh (hello ∷ bye ∷ []) fresh-IsRing refl (ground arith) (omega arith)

flush-write_all_newest_example :
    (rb' : RingBuffer) × (write_then_flush fresh (long ∷ hello ∷ bye ∷ [])
      ≡ done (
        messages (
              drop
                (length (stream (hello ∷ bye ∷ [])))
                (slide (contents fresh) (stream (long ∷ []))))
            ++ (hello ∷ bye ∷ []),
        rb',
      ))
flush-write_all_newest_example =
    flush-write_all_newest fresh (long ∷ []) (hello ∷ bye ∷ []) fresh-IsRing refl (ground arith)
      (ground arith) (omega arith)

rb_flush-messages_example :
    (rb' : RingBuffer) × (rb_flush fresh ≡ done (messages (contents fresh), rb'))
    × IsRing rb'
    × (rb'.is_empty ≡ true)
    × (contents rb' ≡ replicate 2048 0)
    × (rb'.buffer_size ≡ 2048)
    × (rb'.flush_level ≡ pos 3)
rb_flush-messages_example = rb_flush-messages fresh fresh-IsRing

rb_write-Wrote_example : Wrote fresh (take 6 (hello ++ 0 ∷ [])) (rb_write fresh hello 6)
rb_write-Wrote_example = rb_write-Wrote fresh hello 6 fresh-IsRing (omega arith) (omega arith)
