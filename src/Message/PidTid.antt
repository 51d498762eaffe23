-- ===== src/Message/PidTid.antt =====
-- src/main.c: `ParseMsgPidTid`, the prefix `[pid:tid] ` or `[] `.
use pmlogdaemon.Base.{
  ℕ, ◌≡◌, ◌≢◌, ◌⊎◌, ◌↔◌, refl, ap, ap₂, ◌∙◌, true, false, Option, none, some, [], ◌∷◌, ◌++◌, inl,
  inr, arith, Bytes, is_digit, ◌==◌, if◌then◌else◌, Bool-cases, ==_iff,
}

-- `if (!isdigit(*s)) return NULL; s++; while (isdigit(*s)) s++;`
abbrev pub skip_digits : Bytes → Bytes
skip_digits [] = []
skip_digits (c ∷ s) = if is_digit c then skip_digits s else c ∷ s

unfoldable pub digits : Bytes → Option Bytes
digits [] = none
digits (c ∷ s) = if is_digit c then some (skip_digits s) else none

-- `if (*s != c) return NULL; s++;`
unfoldable pub byte : ℕ → Bytes → Option Bytes
byte c [] = none
byte c (d ∷ s) = if d == c then some s else none

infixl 5 ◌>>=◌
abbrev pub ◌>>=◌ : Option Bytes → (Bytes → Option Bytes) → Option Bytes
none >>= f = none
some s >>= f = f s

-- `] ` behind the numbers.
abbrev close : Option Bytes → Option Bytes
close m = m >>= λ u. byte b']' u >>= λ v. byte b' ' v

-- The optional `:tid`.
unfoldable pub tid : Bytes → Option Bytes
tid [] = some []
tid (c ∷ s) = if c == b':' then digits s else some (c ∷ s)

unfoldable pub pid_tid : Bytes → Option Bytes
pid_tid s = do t ← digits s; u ← tid t; v ← byte b']' u; byte b' ' v

-- Behind `[`.
unfoldable pub inside : Bytes → Option Bytes
inside [] = none
inside (c ∷ s) = if c == b']' then byte b' ' s else pid_tid (c ∷ s)

-- `ParseMsgPidTid`: what stands behind the prefix, or none.
unfoldable pub parse_msg_pid_tid : Bytes → Option Bytes
parse_msg_pid_tid msg = do s ← byte b'[' msg; inside s

abbrev pub AllDigits : Bytes → Type 0
AllDigits [] = Unit
AllDigits (c ∷ s) = (is_digit c ≡ true) × AllDigits s

-- The message is such a prefix with `rest` behind it.
pub data Prefixed (msg rest : Bytes) : Type 0 where
  empty : msg ≡ b'[' ∷ (b']' ∷ (b' ' ∷ rest)) → Prefixed msg rest
  pid_only :
      (p : Bytes)
      → AllDigits p
      → p ≢ []
      → msg ≡ b'[' ∷ (p ++ (b']' ∷ (b' ' ∷ rest)))
      → Prefixed msg rest
  both :
      (p t : Bytes)
      → AllDigits p
      → p ≢ []
      → AllDigits t
      → t ≢ []
      → msg ≡ b'[' ∷ (p ++ (b':' ∷ (t ++ (b']' ∷ (b' ' ∷ rest)))))
      → Prefixed msg rest

-- A run of digits, and what stands behind it.
record Run (s rest : Bytes) : Type 0 where
  run : Bytes
  all : AllDigits run
  ne : run ≢ []
  split : s ≡ run ++ rest

skip_digits_split : (s : Bytes) → (p : Bytes) × AllDigits p × (s ≡ p ++ skip_digits s)
skip_digits_split [] = ([], tt, refl)
skip_digits_split (c ∷ s) = elim (Bool-cases (is_digit c)) [
  | inl e ↦
      let (p, all, split) = skip_digits_split s in
      (c ∷ p, (e, all), rw (e, skip_digits) (ap (◌∷◌ c) split))
  | inr e ↦ ([], tt, rw (e, skip_digits))
]

digits-Run : (s : Bytes) {t : Bytes} → digits s ≡ some t → Run s t
unfolding digits
digits-Run [] e = cc
digits-Run (c ∷ s) {t} e = elim (Bool-cases (is_digit c)) [
  | inl d ↦
      let (p, all, split) = skip_digits_split s in
      let left : skip_digits s ≡ t = ground arith in
      record {
        run = c ∷ p;
        all = (d, all);
        ne = λ z. cc;
        split = ap (◌∷◌ c) (split ∙ ap (λ u. p ++ u) left);
      }
  | inr d ↦ absurd (ground arith)
]

skip_digits_run :
    (p : Bytes) (c : ℕ) (t : Bytes)
    → AllDigits p
    → is_digit c ≡ false
    → skip_digits (p ++ (c ∷ t)) ≡ c ∷ t
skip_digits_run [] c t h e = rw (e, skip_digits)
skip_digits_run (d ∷ p) c t h e = rw (h.0, skip_digits) (skip_digits_run p c t h.1 e)

digits_run :
    (p : Bytes) (c : ℕ) (t : Bytes)
    → AllDigits p
    → p ≢ []
    → is_digit c ≡ false
    → digits (p ++ (c ∷ t)) ≡ some (c ∷ t)
unfolding digits
digits_run [] c t h ne e = absurd (ne refl)
digits_run (d ∷ p) c t h ne e = rw h.0 (ap some (skip_digits_run p c t h.1 e))

byte_inv : (c : ℕ) (s : Bytes) {t : Bytes} → byte c s ≡ some t → s ≡ c ∷ t
unfolding byte
byte_inv c [] e = cc
byte_inv c (d ∷ s) e = ground arith

byte-cons : (c : ℕ) (s : Bytes) → byte c (c ∷ s) ≡ some s
unfolding byte
byte-cons c s = ground arith

bind_inv :
    (m : Option Bytes) (f : Bytes → Option Bytes) {t : Bytes}
    → (m >>= f) ≡ some t
    → (s : Bytes) × (m ≡ some s) × (f s ≡ some t)
bind_inv none f e = cc
bind_inv (some s) f e = (s, refl, e)

tid_inv :
    (s : Bytes) {t : Bytes}
    → tid s ≡ some t
    → (s ≡ t) ⊎ ((u : Bytes) × (s ≡ b':' ∷ u) × (digits u ≡ some t))
unfolding tid
tid_inv [] e = inl (ground arith)
tid_inv (c ∷ s) e = elim (Bool-cases (c == b':')) [
  | inl k ↦ inr (s, ap (λ d. d ∷ s) ((==_iff c b':').0 k), rw (k, tid) at e)
  | inr k ↦ inl (ground arith)
]

pid_tid_sound : (s : Bytes) {rest : Bytes} → pid_tid s ≡ some rest → Prefixed (b'[' ∷ s) rest
unfolding pid_tid
pid_tid_sound s {rest} e =
    let (t, dt, e₁) = bind_inv (digits s) _ e in
    let (u, du, e₂) = bind_inv (tid t) _ e₁ in
    let (v, dv, e₃) = bind_inv (byte b']' u) _ e₂ in
    let r = digits-Run s dt in
    let closing : u ≡ b']' ∷ (b' ' ∷ rest) =
      byte_inv b']' u dv ∙ ap (◌∷◌ b']') (byte_inv b' ' v e₃) in
    elim (tid_inv t du) [
      | inl same ↦
          pid_only r.run r.all r.ne
            (ap (◌∷◌ b'[') (r.split ∙ ap (λ w. r.run ++ w) (same ∙ closing)))
      | inr (w, colon, dw) ↦
          let q = digits-Run w dw in
          both r.run q.run r.all r.ne q.all q.ne (
            ap (◌∷◌ b'[') (
              r.split
              ∙ ap (λ z. r.run ++ z)
                  (colon ∙ ap (◌∷◌ b':') (q.split ∙ ap (λ z. q.run ++ z) closing))))
    ]

inside_sound : (s : Bytes) {rest : Bytes} → inside s ≡ some rest → Prefixed (b'[' ∷ s) rest
unfolding inside
inside_sound [] e = cc
inside_sound (c ∷ s) {rest} e = elim (Bool-cases (c == b']')) [
  | inl k ↦
      let is : c ≡ b']' = (==_iff c b']').0 k in
      let space : s ≡ b' ' ∷ rest = byte_inv b' ' s (rw (k, inside) at e) in
      empty (ap₂ (λ d t. b'[' ∷ (d ∷ t)) is space)
  | inr k ↦ pid_tid_sound (c ∷ s) (rw (k, inside) at e)
]

parse_sound : (msg : Bytes) {rest : Bytes} → parse_msg_pid_tid msg ≡ some rest → Prefixed msg rest
unfolding parse_msg_pid_tid
parse_sound msg {rest} e =
    let (s, open_bracket, e₁) = bind_inv (byte b'[' msg) _ e in
    rw (byte_inv b'[' msg open_bracket) (inside_sound s e₁)

inside-digits : (p w : Bytes) → AllDigits p → p ≢ [] → inside (p ++ w) ≡ pid_tid (p ++ w)
unfolding inside
inside-digits [] w h ne = absurd (ne refl)
inside-digits (c ∷ p) w h ne = let other : (c == b']') ≡ false = ground (arith, h.0) in rw other

tid-close : (w : Bytes) → tid (b']' ∷ w) ≡ some (b']' ∷ w)
unfolding tid
tid-close w = refl

tid-colon : (w : Bytes) → tid (b':' ∷ w) ≡ digits w
unfolding tid
tid-colon w = refl

close_end : (rest : Bytes) → close (some (b']' ∷ (b' ' ∷ rest))) ≡ some rest
close_end rest = rw (byte-cons, byte-cons)

parse_complete : {msg rest : Bytes} → Prefixed msg rest → parse_msg_pid_tid msg ≡ some rest
unfolding parse_msg_pid_tid inside pid_tid
parse_complete {msg} {rest} (empty e) = rw (e, byte-cons) (byte-cons b' ' rest)
parse_complete {msg} {rest} (pid_only p h ne e) =
    rw (e, byte-cons, inside-digits p _ h ne, digits_run p b']' (b' ' ∷ rest) h ne refl)
      (ap close (tid-close (b' ' ∷ rest)) ∙ close_end rest)
parse_complete {msg} {rest} (both p t h ne h' ne' e) =
    rw
      (
        e,
        byte-cons,
        inside-digits p _ h ne,
        digits_run p b':' (t ++ (b']' ∷ (b' ' ∷ rest))) h ne refl,
      )
      (ap close
          (tid-colon (t ++ (b']' ∷ (b' ' ∷ rest))) ∙ digits_run t b']' (b' ' ∷ rest) h' ne' refl)
        ∙ close_end rest)

-- The function accepts exactly the prefixes that its comment gives, and `[] `, and returns what
-- stands behind them.
pub parse_msg_pid_tid_iff :
    (msg rest : Bytes) → (parse_msg_pid_tid msg ≡ some rest) ↔ Prefixed msg rest
parse_msg_pid_tid_iff msg rest = (parse_sound msg, parse_complete)
