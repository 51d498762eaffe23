-- ===== src/Ring/History.antt =====
-- A ring over a run of messages: what a flush gives back of all that was written.
use pmlogdaemon.Base.{
  ℕ, zero, suc, ◌+◌, ◌-◌, ◌≤◌, ◌≡◌, ◌≢◌, refl, sym, ap, ◌∙◌, List, [], ◌∷◌, ◌++◌, append-nil,
  append_assoc, arith, Bytes, length, take, drop, replicate, length-append, take_all,
  length-replicate, drop-append_le, drop-replicate,
}
use pmlogdaemon.Base.Outcome.{Outcome, done, ◌>>=◌}
use pmlogdaemon.Ring.{RingBuffer, rb_write, rb_flush}
use pmlogdaemon.Ring.Bounds.{IsRing, allocated}
use pmlogdaemon.Ring.Flush.{rb_flush-messages}
use pmlogdaemon.Ring.Messages.{
  messages_from, messages, stream, AreMessages, messages-stream_append, messages-replicate,
}
use pmlogdaemon.Ring.Window.{contents, slide, slide-slide, length-slide}
use pmlogdaemon.Ring.Write.{rb_write-Wrote}

-- The calls of `RBWrite` that `LogMessage` makes: each message with its NUL.
unfoldable pub write_all : RingBuffer → List Bytes → Outcome RingBuffer
write_all rb [] = done rb
write_all rb (m ∷ ms) = do rb' ← rb_write rb m (length m + 1); write_all rb' ms

-- Each message fits in the block with its NUL.
abbrev pub AllFit : ℕ → List Bytes → Type 0
AllFit n [] = Unit
AllFit n (m ∷ ms) = (length m + 1 ≤ n) × AllFit n ms

slide-nil : (w : Bytes) → slide w [] ≡ w
slide-nil w = append-nil w

write_all-slide :
    (rb : RingBuffer) (ms : List Bytes)
    → IsRing rb
    → AllFit rb.buffer_size ms
    → (rb' : RingBuffer) × (write_all rb ms ≡ done rb')
      × IsRing rb'
      × (contents rb' ≡ slide (contents rb) (stream ms))
      × (rb'.buffer_size ≡ rb.buffer_size)
unfolding write_all
write_all-slide rb [] ring fit = (rb, refl, ring, sym (slide-nil (contents rb)), refl)
write_all-slide rb (m ∷ ms) ring (f, fit) =
    let w = rb_write-Wrote rb m (length m + 1) ring (omega arith) f in
    let whole : take (length m + 1) (m ++ 0 ∷ []) ≡ m ++ 0 ∷ [] =
      take_all (m ++ 0 ∷ []) (length m + 1) (omega (arith, length-append m (0 ∷ []))) in
    let now : contents w.after ≡ slide (contents rb) (m ++ 0 ∷ []) =
      rw (w.holds.at_hand, contents) (w.window ∙ ap (slide (contents rb)) whole) in
    let fit' : AllFit w.after.buffer_size ms = rw w.same_size fit in
    let (rb', e, r, c, z) = write_all-slide w.after ms (allocated w.block w.holds) fit' in
    (
      rb',
      rw w.returns e,
      r,
      c
          ∙ ap (λ v. slide v (stream ms)) now
          ∙ slide-slide (contents rb) (m ++ 0 ∷ []) (stream ms)
          ∙ ap (slide (contents rb)) (append_assoc m (0 ∷ []) (stream ms)),
      z ∙ w.same_size,
    )

-- A window that is empty or whose newest byte is NUL.
abbrev IsEnded : Bytes → Type 0
IsEnded [] = Unit
IsEnded (c ∷ []) = c ≡ 0
IsEnded (c ∷ (d ∷ w)) = IsEnded (d ∷ w)

drop-IsEnded : (n : ℕ) (w : Bytes) → IsEnded w → IsEnded (drop n w)
drop-IsEnded zero w h = h
drop-IsEnded (suc n) [] h = tt
drop-IsEnded (suc n) (c ∷ []) h = drop-IsEnded n [] tt
drop-IsEnded (suc n) (c ∷ (d ∷ w)) h = drop-IsEnded n (d ∷ w) h

replicate-IsEnded : (n : ℕ) → IsEnded (replicate n 0)
replicate-IsEnded zero = tt
replicate-IsEnded (suc zero) = refl
replicate-IsEnded (suc (suc n)) = replicate-IsEnded (suc n)

cons-IsEnded : (c : ℕ) (w : Bytes) → w ≢ [] → IsEnded w → IsEnded (c ∷ w)
cons-IsEnded c [] ne h = absurd (ne refl)
cons-IsEnded c (d ∷ w) ne h = h

append-IsEnded : (v w : Bytes) → w ≢ [] → IsEnded w → IsEnded (v ++ w)
append-IsEnded [] w ne h = h
append-IsEnded (c ∷ []) w ne h = cons-IsEnded c w ne h
append-IsEnded (c ∷ (d ∷ v)) w ne h = append-IsEnded (d ∷ v) w ne h

nul-IsEnded : (w : Bytes) → IsEnded w → IsEnded (0 ∷ w)
nul-IsEnded [] h = refl
nul-IsEnded (c ∷ w) h = h

append-stream-IsEnded : (ms : List Bytes) (v : Bytes) → IsEnded v → IsEnded (v ++ stream ms)
append-stream-IsEnded [] v h = rw (append-nil v) h
append-stream-IsEnded (m ∷ ms) v h = rw (← append_assoc v m (0 ∷ stream ms)) (
    append-IsEnded (v ++ m) (0 ∷ stream ms) (λ e. cc)
      (nul-IsEnded (stream ms) (append-stream-IsEnded ms [] tt)))

messages_from-append :
    (c : ℕ) (w cur z : Bytes)
    → IsEnded (c ∷ w)
    → messages_from cur ((c ∷ w) ++ z) ≡ messages_from cur (c ∷ w) ++ messages z
messages_from-append c [] cur z h = ground arith
messages_from-append c (d ∷ w) cur z h =
    ground (arith, messages_from-append d w (cur ++ c ∷ []) z h, messages_from-append d w [] z h)

messages-append : (w z : Bytes) → IsEnded w → messages (w ++ z) ≡ messages w ++ messages z
messages-append [] z h = refl
messages-append (c ∷ w) z h = messages_from-append c w [] z h

messages-stream : (ms : List Bytes) → AreMessages ms → messages (stream ms) ≡ ms
messages-stream ms h =
    ap messages (sym (append-nil (stream ms))) ∙ messages-stream_append ms [] h ∙ append-nil ms

-- The bytes of a run of messages that fit together hold each of them.
AllFit-stream : (n : ℕ) (ms : List Bytes) → length (stream ms) ≤ n → AllFit n ms
AllFit-stream n [] h = tt
AllFit-stream n (m ∷ ms) h =
    let l : length (stream (m ∷ ms)) ≡ length m + suc (length (stream ms)) =
      length-append m (0 ∷ stream ms) in
    (omega arith, AllFit-stream n ms (omega arith))

stream-append : (ms ns : List Bytes) → stream (ms ++ ns) ≡ stream ms ++ stream ns
stream-append [] ns = refl
stream-append (m ∷ ms) ns =
    rw (stream-append ms ns) (sym (append_assoc m (0 ∷ stream ms) (stream ns)))

-- A run of messages, and a flush behind it.
abbrev pub write_then_flush : RingBuffer → List Bytes → Outcome (List Bytes × RingBuffer)
write_then_flush rb ms = do r ← write_all rb ms; rb_flush r

write_then_flush-messages :
    (rb : RingBuffer) (ms : List Bytes)
    → IsRing rb
    → AllFit rb.buffer_size ms
    → (rb' : RingBuffer) × (write_then_flush rb ms
        ≡ done (messages (slide (contents rb) (stream ms)), rb'))
write_then_flush-messages rb ms ring fit =
    let (r, e, ring', c, z) = write_all-slide rb ms ring fit in
    let (rb', f, _, _, _, _, _) = rb_flush-messages r ring' in
    (rb', rw e (f ∙ ap (λ w. done (messages w, rb')) c))

-- Messages that together fit in an empty ring come back from a flush exactly as they were written,
-- in order, provided that none is empty and none holds a NUL.
pub flush-write_all :
    (rb : RingBuffer) (ms : List Bytes)
    → IsRing rb
    → contents rb ≡ replicate rb.buffer_size 0
    → AreMessages ms
    → length (stream ms) ≤ rb.buffer_size
    → (rb' : RingBuffer) × (write_then_flush rb ms ≡ done (ms, rb'))
flush-write_all rb ms ring clear good fit =
    let (rb', e) = write_then_flush-messages rb ms ring (AllFit-stream _ ms fit) in
    (rb', e ∙ ap (λ w. done (w, rb')) all)
  where
    zeros : Bytes
    zeros = replicate rb.buffer_size 0

    short : length (stream ms) ≤ length zeros
    short = omega (arith, length-replicate {A = ℕ} rb.buffer_size 0)

    all : messages (slide (contents rb) (stream ms)) ≡ ms
    all =
        ap (λ w. messages (slide w (stream ms))) clear
        ∙ ap messages (drop-append_le zeros (stream ms) (length (stream ms)) short)
        ∙ ap (λ w. messages (w ++ stream ms)) (drop-replicate (length (stream ms)) rb.buffer_size 0)
        ∙ messages-replicate (rb.buffer_size - length (stream ms)) (stream ms)
        ∙ messages-stream ms good

-- However much was written into an empty ring before, the newest messages that fit in the block
-- together are never lost: a flush ends with exactly them, behind the messages in what the older
-- ones left in the window.
pub flush-write_all_newest :
    (rb : RingBuffer) (old newest : List Bytes)
    → IsRing rb
    → contents rb ≡ replicate rb.buffer_size 0
    → AllFit rb.buffer_size (old ++ newest)
    → AreMessages newest
    → length (stream newest) ≤ rb.buffer_size
    → (rb' : RingBuffer) × (write_then_flush rb (old ++ newest)
        ≡ done (
          messages (drop (length (stream newest)) (slide (contents rb) (stream old))) ++ newest,
          rb',
        ))
flush-write_all_newest rb old newest ring clear fit good room =
    let (rb', e) = write_then_flush-messages rb (old ++ newest) ring fit in
    (rb', e ∙ ap (λ w. done (w, rb')) split)
  where
    w : Bytes
    w = slide (contents rb) (stream old)

    n : ℕ
    n = length (stream newest)

    size : length w ≡ rb.buffer_size
    size =
        length-slide (contents rb) (stream old)
        ∙ ap length clear
        ∙ length-replicate rb.buffer_size 0

    ended : IsEnded (drop n w)
    ended = drop-IsEnded n w (
        drop-IsEnded (length (stream old)) (contents rb ++ stream old)
          (append-stream-IsEnded old (contents rb) (rw clear (replicate-IsEnded rb.buffer_size))))

    split : messages (slide (contents rb) (stream (old ++ newest))) ≡ messages (drop n w) ++ newest
    split =
        ap (λ s. messages (slide (contents rb) s)) (stream-append old newest)
        ∙ ap messages (sym (slide-slide (contents rb) (stream old) (stream newest)))
        ∙ ap messages (drop-append_le w (stream newest) n (omega (arith, size)))
        ∙ messages-append (drop n w) (stream newest) ended
        ∙ ap (λ ms. messages (drop n w) ++ ms) (messages-stream newest good)
