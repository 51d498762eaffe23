-- ===== src/Dispatch/Stamp.antt =====
-- src/main.c: `MakeMessageTimestamp` and `getMonotonicTime`. What the system says of the time is a
-- parameter.
pub mod Laws
pub mod Strip
use pmlogdaemon.Base.{
  ℕ, ◌+◌, ◌-◌, Bool, not, ◌&&◌, [], ◌∷◌, ◌++◌, Bytes, codes, length, take, drop, replicate, ltb,
  if◌then◌else◌,
}
use pmlogdaemon.Base.Int.{ℤ, pos, negsuc, pos_part, minus_one, eqb_ℤ, ltb_ℤ}
use pmlogdaemon.Base.Outcome.{Outcome, done, ◌>>=◌}
use pmlogdaemon.Base.Strtol.{decimal, show_ℤ}
use pmlogdaemon.Message.Program.{poke, c_str}
use pmlogdaemon.Ring.{write_at}

-- `g_useFullTimeStamps`, `g_timeStampFracSecDigits` and `g_timeStampMonotonic`
pub record Settings : Type 0 where
  pub use_full_time_stamps : Bool
  pub frac_sec_digits : ℤ
  pub monotonic : Bool

-- What `gettimeofday`, `gmtime_r`, `ctime` and `clock_gettime` say: the year and the month as they
-- are printed, and for the last its result and `tv_sec`.
pub record Clock : Type 0 where
  pub year : ℕ
  pub month : ℕ
  pub day : ℕ
  pub hour : ℕ
  pub minute : ℕ
  pub second : ℕ
  pub tv_usec : ℕ
  pub ctime : Bytes
  pub clock_result : ℤ
  pub monotonic_sec : ℤ

-- `%0<w>d` of a number that is not negative.
abbrev pub pad : ℕ → ℕ → Bytes
pad w n = replicate (w - length (decimal n)) b'0' ++ decimal n

unfoldable pub get_monotonic_time : Clock → ℤ
get_monotonic_time t = if not (eqb_ℤ t.clock_result (pos 0)) then minus_one else t.monotonic_sec

-- `char fracSecStr[16]`
abbrev pub frac_sec_size : ℕ
frac_sec_size = 16

-- `fracSecStr`, in a block with whatever the stack holds.
unfoldable pub frac_sec : ℤ → ℕ → Bytes → Outcome Bytes
frac_sec digits usec block = do
  b₁ ← poke block 0 0
  b₃ ←
      (if ltb_ℤ (pos 0) digits
        then write_at b₁ 0 (take (frac_sec_size - 1) (b'.' ∷ pad 6 usec) ++ 0 ∷ [])
          >>= (λ b₂. poke b₂ (1 + pos_part digits) 0)
        else done b₁)
  done (c_str b₃)

-- The date and the time of day in the two forms: "1985-04-12T23:20:50.52Z" and "Jun 30 21:49:08".
unfoldable pub full_date : Clock → Bytes
full_date t =
    pad 4 t.year
    ++ (b'-'
        ∷ (pad 2 t.month
            ++ (b'-'
                ∷ (pad 2 t.day
                    ++ (b'T'
                        ∷ (pad 2 t.hour
                            ++ (b':' ∷ (pad 2 t.minute ++ (b':' ∷ pad 2 t.second)))))))))

unfoldable pub short_stamp : Clock → Bytes
short_stamp t = take 15 (drop 4 t.ctime)

-- What is appended of the monotonic time.
unfoldable pub monotonic_part : Settings → Clock → Bytes
unfolding get_monotonic_time
monotonic_part s t =
    if s.monotonic && not (eqb_ℤ (get_monotonic_time t) minus_one)
    then codes " [" ++ (show_ℤ (get_monotonic_time t) ++ codes "]")
    else []

unfoldable pub make_message_timestamp : Settings → Clock → Bytes → Outcome Bytes
unfolding frac_sec full_date short_stamp monotonic_part
make_message_timestamp s t block = do
  stamp ←
      (if s.use_full_time_stamps
        then frac_sec s.frac_sec_digits t.tv_usec block
          >>= (λ frac. done (full_date t ++ (frac ++ codes "Z")))
        else done (short_stamp t))
  done (stamp ++ monotonic_part s t)
