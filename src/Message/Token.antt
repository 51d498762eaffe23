-- ===== src/Message/Token.antt =====
-- src/main.c: `ParseMsgContext` and `ParseMsgID` (the same loop on two buffers), `ParseMsgTag`, the
-- time stamp that `LogMessage` takes off, and the command that `HandleLogCommand` knows.
use pmlogdaemon.Base.{
  ℕ, ◌+◌, ◌-◌, ◌<◌, ◌≡◌, ◌↔◌, refl, ap, ◌∙◌, Bool, true, false, ◌&&◌, Option, none, some, [], ◌∷◌,
  ◌++◌, arith, Bytes, codes, length, take, drop, is_space, is_digit, leb, ◌==◌, if◌then◌else◌,
  str_eq, starts_with, get_or, length-append, take_all, drop-append, inl, inr, Bool-cases,
}
use pmlogdaemon.Base.Outcome.{Outcome, done, overflow, ◌>>=◌}

-- The loop `while (!isspace(*s))`: the word and what is left, from its space on. Nothing stops it at
-- the NUL, behind which it reads what the caller's buffer does not hold.
unfoldable pub word : Bytes → Outcome (Bytes × Bytes)
word [] = overflow
word (c ∷ s) =
    let rest = word s in
    if is_space c then done ([], c ∷ s) else (do (w, left) ← rest; done (c ∷ w, left))

-- `ParseMsgContext` and `ParseMsgID`: none for an empty word; else what is left, and the word, cut to
-- the size of the buffer.
unfoldable pub parse_msg_context : ℕ → Bytes → Outcome (Option (Bytes × Bytes))
parse_msg_context size msg = do
  (w, left) ← word msg
  done (
      if length w == 0
      then none
      else some (left, take (if leb size (length w) then size - 1 else length w) w))

-- `ParseMsgTag`, for the identifier of the logging library: what stands behind it and a space.
unfoldable pub parse_msg_tag : Bytes → Bytes → Option Bytes
parse_msg_tag identifier msg =
    if starts_with (identifier ++ b' ' ∷ []) msg
    then some (drop (length identifier + 1) msg)
    else none

-- `HandleLogCommand`: whether the message is the command to rotate the main log.
unfoldable pub is_rotate_command : Bytes → Bool
is_rotate_command msg =
    if starts_with (codes "!log ") msg then str_eq (drop 5 msg) (codes "rotate") else false

-- The test for "Mmm dd hh:mm:ss " in `LogMessage`, byte by byte as it is written there.
unfoldable pub has_stamp : Bytes → Bool
has_stamp msg =
    leb 16 (length msg)
    && (get_or msg 3 0 == b' ')
    && is_digit (get_or msg 5 0)
    && (get_or msg 6 0 == b' ')
    && is_digit (get_or msg 8 0)
    && (get_or msg 9 0 == b':')
    && is_digit (get_or msg 10 0)
    && is_digit (get_or msg 11 0)
    && (get_or msg 12 0 == b':')
    && is_digit (get_or msg 13 0)
    && is_digit (get_or msg 14 0)
    && (get_or msg 15 0 == b' ')

unfoldable pub strip_stamp : Bytes → Bytes
strip_stamp msg = if has_stamp msg then drop 16 msg else msg

-- No byte of the word is a space.
abbrev pub IsWord : Bytes → Type 0
IsWord [] = Unit
IsWord (c ∷ s) = (is_space c ≡ false) × IsWord s

word-IsWord :
    (w rest : Bytes) (c : ℕ)
    → IsWord w
    → is_space c ≡ true
    → word (w ++ (c ∷ rest)) ≡ done (w, c ∷ rest)
unfolding word
word-IsWord [] rest c h e = rw e
word-IsWord (d ∷ w) rest c h e = rw (h.0, word-IsWord w rest c h.1 e)

word-overflow : (w : Bytes) → IsWord w → word w ≡ overflow
unfolding word
word-overflow [] h = refl
word-overflow (d ∷ w) h = rw (h.0, word-overflow w h.1)

-- A word and a space behind it: the word comes back, cut to its buffer, and the text from the space
-- on; a word with no space behind it is read past the end of the text.
pub parse_msg_context_word :
    (size : ℕ) (w rest : Bytes) (c : ℕ)
    → IsWord w
    → 0 < length w
    → 0 < size
    → is_space c ≡ true
    → (parse_msg_context size (w ++ (c ∷ rest)) ≡ done (some (c ∷ rest, take (size - 1) w)))
      × (parse_msg_context size w ≡ overflow)
unfolding parse_msg_context
parse_msg_context_word size w rest c h some_word room e = (
  rw (word-IsWord w rest c h e) (elim (Bool-cases (leb size (length w))) [
    | inl cut ↦ ground arith
    | inr fits ↦ ground (arith, take_all w (size - 1), take_all w (length w))
  ]),
  rw (word-overflow w h),
)

starts_with-append : (p s : Bytes) → starts_with p (p ++ s) ≡ true
starts_with-append [] s = refl
starts_with-append (c ∷ p) s = ground (arith, starts_with-append p s)

starts_with_split : (p s : Bytes) → starts_with p s ≡ true → s ≡ p ++ drop (length p) s
starts_with_split [] s h = refl
starts_with_split (c ∷ p) [] h = cc
starts_with_split (c ∷ p) (d ∷ s) h = ground (arith, starts_with_split p s)

-- A message is taken for one of the logging library exactly when it starts with the identifier and
-- a space, and what is handed on is what stands behind them.
parse_msg_tag_iff :
    (identifier msg rest : Bytes)
    → (parse_msg_tag identifier msg ≡ some rest) ↔ (msg ≡ (identifier ++ b' ' ∷ []) ++ rest)
unfolding parse_msg_tag
parse_msg_tag_iff identifier msg rest = (there, back)
  where
    tag : Bytes
    tag = identifier ++ b' ' ∷ []

    size : length tag ≡ length identifier + 1
    size = length-append identifier (b' ' ∷ [])

    there : parse_msg_tag identifier msg ≡ some rest → msg ≡ tag ++ rest
    there e =
        let left : drop (length identifier + 1) msg ≡ rest = ground arith in
        starts_with_split tag msg (ground arith)
        ∙ ap (λ k. tag ++ drop k msg) size
        ∙ ap (λ t. tag ++ t) left

    back : msg ≡ tag ++ rest → parse_msg_tag identifier msg ≡ some rest
    back e = rw (e, starts_with-append tag rest) (ap some (drop-append tag rest size))
