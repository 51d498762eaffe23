-- ===== src/Ring/Messages.antt =====
-- The messages in a window of bytes, by what `RBFlush` means: the non-empty runs that end in NUL.
use pmlogdaemon.Base.{
  ℕ, zero, suc, ◌+◌, ◌<◌, ◌≡◌, refl, ap, ◌∙◌, List, [], ◌∷◌, ◌++◌, append-nil, append_assoc, arith,
  Bytes, length, replicate, length-append, ◌==◌, if◌then◌else◌, IsString,
}

-- `cur` is the part of a message read so far; what has no NUL behind it is dropped.
abbrev pub messages_from : Bytes → Bytes → List Bytes
messages_from cur [] = []
messages_from cur (c ∷ w) =
    let more = messages_from (cur ++ c ∷ []) w in
    let next = messages_from [] w in
    if c == 0 then (if length cur == 0 then next else cur ∷ next) else more

abbrev pub messages : Bytes → List Bytes
messages = messages_from []

-- A stream of messages as `LogMessage` writes them, each with its NUL.
abbrev pub stream : List Bytes → Bytes
stream [] = []
stream (m ∷ ms) = m ++ (0 ∷ stream ms)

-- Messages that a C string can hold and that are not empty.
abbrev pub AreMessages : List Bytes → Type 0
AreMessages [] = Unit
AreMessages (m ∷ ms) = IsString m × (0 < length m) × AreMessages ms

messages_from-string :
    (m cur w : Bytes)
    → IsString m
    → 0 < length cur + length m
    → messages_from cur (m ++ (0 ∷ w)) ≡ (cur ++ m) ∷ messages w
messages_from-string [] cur w s p = ground (arith, append-nil cur)
messages_from-string (c ∷ m) cur w s p = ground (
  arith,
  messages_from-string m (cur ++ c ∷ []) w,
  length-append cur (c ∷ []),
  append_assoc cur (c ∷ []) m,
)

pub messages-stream_append :
    (ms : List Bytes) (w : Bytes) → AreMessages ms → messages (stream ms ++ w) ≡ ms ++ messages w
messages-stream_append [] w h = refl
messages-stream_append (m ∷ ms) w h = rw append_assoc (
    messages_from-string m [] (stream ms ++ w) h.0 (omega (arith, h.1))
    ∙ ap (◌∷◌ m) (messages-stream_append ms w h.2))

-- A NUL ends whatever came before it.
pub messages_from-nul :
    (v cur w : Bytes)
    → messages_from cur (v ++ (0 ∷ w)) ≡ messages_from cur (v ++ 0 ∷ []) ++ messages w
messages_from-nul [] cur w = ground arith
messages_from-nul (c ∷ v) cur w =
    ground (arith, messages_from-nul v (cur ++ c ∷ []) w, messages_from-nul v [] w)

pub messages-replicate : (n : ℕ) (w : Bytes) → messages (replicate n 0 ++ w) ≡ messages w
messages-replicate zero w = refl
messages-replicate (suc n) w = messages-replicate n w
