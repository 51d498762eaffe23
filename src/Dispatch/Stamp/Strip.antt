-- ===== src/Dispatch/Stamp/Strip.antt =====
-- What `LogMessage` in src/main.c takes off a message of what `MakeMessageTimestamp` prints.
use pmlogdaemon.Base.{
  not, ◌&&◌, ℕ, ◌≡◌, inl, inr, refl, ap, ◌∙◌, true, false, ◌∷◌, ◌++◌, append_assoc, arith, Bytes,
  is_digit, leb, length, take, drop, Bool-cases,
}
use pmlogdaemon.Base.Int.{eqb_ℤ, minus_one}
use pmlogdaemon.Base.Outcome.{done}
use pmlogdaemon.Base.Outcome.{done}
use pmlogdaemon.Dispatch.Stamp.{
  Settings, Clock, make_message_timestamp, get_monotonic_time, short_stamp, monotonic_part,
}
use pmlogdaemon.Message.Token.{has_stamp, strip_stamp}

-- The text of `ctime`: "Wed Jun 30 21:49:08 1993\n", with a space for the first digit of a day below
-- 10.
pub record IsCtime (text : Bytes) : Type 0 where
  pub wday : ℕ × ℕ × ℕ
  pub mon : ℕ × ℕ × ℕ
  pub day : ℕ × ℕ
  pub hour : ℕ × ℕ
  pub minute : ℕ × ℕ
  pub second : ℕ × ℕ
  pub year : Bytes
  pub day_digit : is_digit day.1 ≡ true
  pub hour_digit : is_digit hour.1 ≡ true
  pub minute_digits : (is_digit minute.0 ≡ true) × (is_digit minute.1 ≡ true)
  pub second_digits : (is_digit second.0 ≡ true) × (is_digit second.1 ≡ true)
  pub is :
      text
      ≡ wday.0 ∷ wday.1 ∷ wday.2 ∷ b' ' ∷ mon.0 ∷ mon.1 ∷ mon.2 ∷ b' ' ∷ day.0 ∷ day.1 ∷ b' '
        ∷ hour.0 ∷ hour.1 ∷ b':' ∷ minute.0 ∷ minute.1 ∷ b':' ∷ second.0 ∷ second.1 ∷ b' ' ∷ year

-- The sixteen bytes that are taken off.
strip_stamp-cons :
    (a b c tens day h₀ h₁ m₀ m₁ s₀ s₁ : ℕ) (rest : Bytes)
    → is_digit day ≡ true
    → is_digit h₁ ≡ true
    → is_digit m₀ ≡ true
    → is_digit m₁ ≡ true
    → is_digit s₀ ≡ true
    → is_digit s₁ ≡ true
    → strip_stamp (
        a ∷ b ∷ c ∷ b' ' ∷ tens ∷ day ∷ b' ' ∷ h₀ ∷ h₁ ∷ b':' ∷ m₀ ∷ m₁ ∷ b':' ∷ s₀ ∷ s₁ ∷ b' '
        ∷ rest)
      ≡ rest
unfolding strip_stamp has_stamp
strip_stamp-cons a b c tens day h₀ h₁ m₀ m₁ s₀ s₁ rest d h m m' s s' =
    let msg =
      a ∷ b ∷ c ∷ b' ' ∷ tens ∷ day ∷ b' ' ∷ h₀ ∷ h₁ ∷ b':' ∷ m₀ ∷ m₁ ∷ b':' ∷ s₀ ∷ s₁ ∷ b' '
      ∷ rest in
    let long : leb 16 (length msg) ≡ true = ground arith in rw (long, d, h, m, m', s, s') refl

-- The monotonic time starts with a space.
space_behind :
    (s : Settings) (t : Clock) (msg : Bytes)
    → monotonic_part s t ++ b' ' ∷ msg ≡ b' ' ∷ drop 1 (monotonic_part s t ++ b' ' ∷ msg)
unfolding monotonic_part
space_behind s t msg =
    elim (Bool-cases (s.monotonic && not (eqb_ℤ (get_monotonic_time t) minus_one))) [
      | inl on ↦ rw on refl
      | inr off ↦ rw off refl
    ]

-- The short time stamp of `MakeMessageTimestamp`, where `ctime` prints as documented: `LogMessage`
-- takes its date and its time of day off a message that starts with it, and leaves the monotonic time
-- and the text.
pub strip_stamp-make_message_timestamp :
    (s : Settings) (t : Clock) (block msg : Bytes)
    → IsCtime t.ctime
    → s.use_full_time_stamps ≡ false
    → (stamp : Bytes) × (make_message_timestamp s t block ≡ done stamp)
      × (strip_stamp (stamp ++ b' ' ∷ msg) ≡ drop 1 (monotonic_part s t ++ b' ' ∷ msg))
unfolding make_message_timestamp
strip_stamp-make_message_timestamp s t block msg h short = (
  short_stamp t ++ monotonic_part s t,
  rw short refl,
  ap strip_stamp (append_assoc (short_stamp t) (monotonic_part s t) (b' ' ∷ msg)) ∙ taken_off,
)
  where
    taken_off :
        strip_stamp (short_stamp t ++ (monotonic_part s t ++ b' ' ∷ msg))
        ≡ drop 1 (monotonic_part s t ++ b' ' ∷ msg)
    taken_off =
        rw (short_stamp, ap (λ text. take 15 (drop 4 text)) h.is, space_behind s t msg)
          (strip_stamp-cons h.mon.0 h.mon.1 h.mon.2 h.day.0 h.day.1 h.hour.0 h.hour.1 h.minute.0
            h.minute.1 h.second.0 h.second.1 (drop 1 (monotonic_part s t ++ b' ' ∷ msg)) h.day_digit
            h.hour_digit h.minute_digits.0 h.minute_digits.1 h.second_digits.0 h.second_digits.1)
