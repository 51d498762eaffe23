-- ===== src/Message/Program/Buffers.antt =====
-- src/main.c: what `ParseMsgProgram` leaves in the two buffers of its caller.
use native.Mathlib.Nat.{zero-add}
use pmlogdaemon.Base.{
  ℕ, zero, suc, ◌+◌, ◌-◌, ◌≤◌, ◌<◌, ◌≡◌, refl, sym, ap, ap₂, ◌∙◌, [], ◌∷◌, ◌++◌, append_assoc,
  arith, Bytes, length, take, drop, leb, IsString, length-append, length-take, length-drop,
  take-append, drop-append, inl, inr, Bool-cases, take-append_ge, take-append_le, take-take,
  take-append-drop,
}
use pmlogdaemon.Base.Outcome.{Outcome, done, overflow}
use pmlogdaemon.Message.Program.{poke, c_str, write_full, write_name}
use pmlogdaemon.Ring.{write_at}
use pmlogdaemon.Ring.Bounds.{write_at_lem}
use pmlogdaemon.Ring.Write.{patch, length-patch}

pub c_str-append : (s b : Bytes) → IsString s → c_str (s ++ (0 ∷ b)) ≡ s
c_str-append [] b h = refl
c_str-append (c ∷ s) b h = ground (arith, c_str-append s b h.1)

-- A block that starts with a string `s` and a NUL.
pub record Starts (b s : Bytes) : Type 0 where
  pub later : Bytes
  pub is : b ≡ s ++ (0 ∷ later)

-- A byte written at the end of a known front.
pub poke-append :
    (x : Bytes) (d : ℕ) (y : Bytes) (i c : ℕ)
    → length x ≡ i
    → poke (x ++ (d ∷ y)) i c ≡ done (x ++ (c ∷ y))
poke-append x d y i c e =
    let l : length (x ++ (d ∷ y)) ≡ i + suc (length y) =
      length-append x (d ∷ y) ∙ ap (λ j. j + suc (length y)) e in
    let one : i + 1 ≡ length (x ++ (d ∷ [])) = omega (arith, length-append x (d ∷ [])) in
    write_at_lem (x ++ (d ∷ y)) i (c ∷ []) (omega arith)
    ∙ ap₂ (λ u v. done (u ++ (c ∷ v))) (take-append x (d ∷ y) e)
        (ap₂ drop one (sym (append_assoc x (d ∷ []) y)) ∙ drop-append (x ++ (d ∷ [])) y refl)

-- A NUL written at or behind the one at hand changes nothing of the string.
pub poke-Starts :
    (b s : Bytes) (i : ℕ)
    → Starts b s
    → length s ≤ i
    → i < length b
    → (b' : Bytes) × (poke b i 0 ≡ done b') × Starts b' s
poke-Starts b s i w l h = (
  take i b ++ (0 ∷ drop (i + 1) b),
  write_at_lem b i (0 ∷ []) (omega arith),
  starts (i - length s) refl,
)
  where
    starts : (j : ℕ) → j ≡ i - length s → Starts (take i b ++ (0 ∷ drop (i + 1) b)) s
    starts zero e = record {
      later = drop (i + 1) b;
      is =
          ap (λ t. t ++ (0 ∷ drop (i + 1) b))
            (ap (take i) w.is ∙ take-append s (0 ∷ w.later) (omega arith));
    }
    starts (suc j) e = record {
      later = take j w.later ++ (0 ∷ drop (i + 1) b);
      is =
          ap (λ t. t ++ (0 ∷ drop (i + 1) b))
            (ap (take i) w.is
              ∙ take-append_ge s (0 ∷ w.later) i l
              ∙ ap (λ k. s ++ take k (0 ∷ w.later)) (sym e))
          ∙ append_assoc s (0 ∷ take j w.later) (0 ∷ drop (i + 1) b);
    }

-- A list with room behind `n` bytes.
pub room : (b : Bytes) (n : ℕ) → n < length b → (d : ℕ) × (y : Bytes) × (drop n b ≡ d ∷ y)
room [] n h = absurd (omega arith)
room (d ∷ b) zero h = (d, b, refl)
room (d ∷ b) (suc n) h = room b n (omega arith)

pub copied :
    (block s : Bytes)
    → length s ≤ length block
    → write_at block 0 s ≡ done (s ++ drop (length s) block)
copied block s h =
    write_at_lem block 0 s (omega arith) ∙ ap (λ k. done (s ++ drop k block)) (zero-add (length s))

pub write_name-Starts :
    (name msg : Bytes) (len : ℕ)
    → len < length name
    → len ≤ length msg
    → (b : Bytes) × (write_name name msg len ≡ done b) × Starts b (take len msg)
unfolding write_name
write_name-Starts name msg len h l =
    let front : length (take len msg) ≡ len = omega (arith, length-take len msg) in
    let (d, y, e) = room name (length (take len msg)) (omega arith) in
    (
      take len msg ++ (0 ∷ y),
      rw (copied name (take len msg) (omega arith), e) (poke-append (take len msg) d y len 0 front),
      record { later = y; is = refl },
    )

-- The four writes in a row.
write_full_chain :
    (full msg : Bytes) {b₁ b₂ b₃ : Bytes} {out : Outcome Bytes} (full_len index : ℕ)
    → write_at full 0 (take full_len msg) ≡ done b₁
    → poke b₁ index b' ' ≡ done b₂
    → poke b₂ (index + 1) 0 ≡ done b₃
    → poke b₃ full_len 0 ≡ out
    → write_full full msg full_len index ≡ out
unfolding write_full
write_full_chain full msg full_len index e₁ e₂ e₃ e₄ = rw (e₁, e₂, e₃) e₄

pub poke_past : (b : Bytes) (i c : ℕ) → length b ≤ i → poke b i c ≡ overflow
unfolding write_at
poke_past b i c h = ground arith

pub write_full-overflow :
    (full msg : Bytes) (full_len index : ℕ)
    → full_len < length full
    → length full ≤ index + 1
    → full_len ≤ length msg
    → write_full full msg full_len index ≡ overflow
unfolding write_full
write_full-overflow full msg full_len index hf long hm =
    elim (Bool-cases (leb (length full) index)) [
      | inl e ↦ rw e₁ (rw (poke_past b₁ index b' ' (ground (arith, size))))
      | inr e ↦
          let inside : index + 1 ≤ length b₁ = ground (arith, size) in
          let size₂ : length (patch b₁ index (b' ' ∷ [])) ≡ length b₁ =
            length-patch b₁ index (b' ' ∷ []) inside in
          rw (e₁, write_at_lem b₁ index (b' ' ∷ []) inside)
            (rw (poke_past (patch b₁ index (b' ' ∷ [])) (index + 1) 0 (omega (arith, size))))
    ]
  where
    front : length (take full_len msg) ≡ full_len
    front = omega (arith, length-take full_len msg)

    b₁ : Bytes
    b₁ = patch full 0 (take full_len msg)

    size : length b₁ ≡ length full
    size = length-patch full 0 (take full_len msg) (omega (arith, front))

    e₁ : write_at full 0 (take full_len msg) ≡ done b₁
    e₁ = write_at_lem full 0 (take full_len msg) (omega (arith, front))

pub write_full-Starts :
    (full msg : Bytes) (full_len index : ℕ)
    → suc index < length full
    → full_len < length full
    → index < full_len
    → full_len ≤ length msg
    → (b : Bytes) × (write_full full msg full_len index ≡ done b)
      × Starts b (take index msg ++ b' ' ∷ [])
write_full-Starts full msg full_len index h hf hi hm =
    let front : length (take full_len msg) ≡ full_len = omega (arith, length-take full_len msg) in
    let b₁ : Bytes = take full_len msg ++ drop (length (take full_len msg)) full in
    let size : length b₁ ≡ length full = omega (
      arith,
      length-append (take full_len msg) (drop (length (take full_len msg)) full),
      length-drop (length (take full_len msg)) full,
    ) in
    let p : Bytes = take index msg in
    let l : length p ≡ index = omega (arith, length-take index msg) in
    let kept : take index b₁ ≡ p =
      take-append_le (take full_len msg) _ index (omega arith)
      ∙ take-take index full_len msg (omega arith) in
    let (d, y, e) = room b₁ index (omega arith) in
    let is₁ : b₁ ≡ p ++ (d ∷ y) = sym (take-append-drop index b₁) ∙ ap₂ ◌++◌ kept e in
    let more : 0 < length y = omega (arith, ap length is₁, length-append p (d ∷ y)) in
    let (d', y', e') = room y 0 more in
    let is₂ : p ++ (b' ' ∷ y) ≡ (p ++ b' ' ∷ []) ++ (d' ∷ y') =
      ap (λ t. p ++ (b' ' ∷ t)) e' ∙ sym (append_assoc p (b' ' ∷ []) (d' ∷ y')) in
    let l' : length (p ++ b' ' ∷ []) ≡ index + 1 = omega (arith, length-append p (b' ' ∷ [])) in
    let b₃ : Bytes = (p ++ b' ' ∷ []) ++ (0 ∷ y') in
    let size₃ : length b₃ ≡ length full = omega (
      arith,
      length-append (p ++ b' ' ∷ []) (0 ∷ y'),
      length-append p (d ∷ y),
      ap length is₁,
      ap length e',
    ) in
    let (b, poked, w) =
      poke-Starts b₃ (p ++ b' ' ∷ []) full_len (record { later = y'; is = refl }) (omega arith)
        (omega arith) in
    (
      b,
      write_full_chain full msg full_len index (copied full (take full_len msg) (omega arith))
          (ap (λ t. poke t index b' ') is₁ ∙ poke-append p d y index b' ' l ∙ ap done is₂)
          (poke-append (p ++ b' ' ∷ []) d' y' (index + 1) 0 l') poked,
      w,
    )
