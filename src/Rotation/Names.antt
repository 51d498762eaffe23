-- ===== src/Rotation/Names.antt =====
-- The names of the rotated files of one log: no two of them are the same, nor the log's own.
use pmlogdaemon.Base.{
  ℕ, ◌+◌, ◌≤◌, ◌≡◌, ◌≢◌, refl, sym, ap, ◌∙◌, false, ◌∷◌, ◌++◌, arith, Bytes, codes, length, take,
  drop, take_all, drop-append, length-append, str_eq, str_eq_ne, str_eq_flip,
}
use pmlogdaemon.Base.Int.{pos}
use pmlogdaemon.Base.Strtol.{decimal}
use pmlogdaemon.Base.Strtol.Digits.{length-decimal, decimal_injective}
use pmlogdaemon.Rotation.{path_room, rotation_path, path_0}

append_cancel : (p s t : Bytes) → p ++ s ≡ p ++ t → s ≡ t
append_cancel p s t e = sym (drop-append p s refl) ∙ ap (drop (length p)) e ∙ drop-append p t refl

-- The name of rotated file `i`, as `snprintf` leaves it.
abbrev pub slot : Bytes → ℕ → Bytes
slot path i = take path_room (rotation_path path (pos i))

pub length-rotation_path :
    (path : Bytes) (i : ℕ)
    → length (rotation_path path (pos i)) ≡ length path + length (decimal i) + 4
unfolding rotation_path
length-rotation_path path i = omega (
  arith,
  length-append path (b'.' ∷ (decimal i ++ codes ".gz")),
  length-append (decimal i) (codes ".gz"),
)

pub rotation_path_injective :
    (path : Bytes) (i j : ℕ) → rotation_path path (pos i) ≡ rotation_path path (pos j) → i ≡ j
unfolding rotation_path
rotation_path_injective path i j e =
    decimal_injective i j (codes ".gz") refl (ap (drop 1) (append_cancel path _ _ e))

module _ (path : Bytes) (m : ℕ) (fits : length path + m + 5 ≤ path_room) where
  slot_whole : (i : ℕ) → i ≤ m → slot path i ≡ rotation_path path (pos i)
  slot_whole i h =
      take_all (rotation_path path (pos i)) path_room
        (omega (arith, length-rotation_path path i, length-decimal i))

  path_0_whole : path_0 path ≡ path ++ codes ".0"
  path_0_whole =
      take_all (path ++ codes ".0") path_room (omega (arith, length-append path (codes ".0")))

  pub slot_apart : (i j : ℕ) → i ≤ m → j ≤ m → i ≢ j → str_eq (slot path i) (slot path j) ≡ false
  slot_apart i j h k ne =
      str_eq_ne _ _
        (λ e. ne (rotation_path_injective path i j (sym (slot_whole i h) ∙ e ∙ slot_whole j k)))

  pub slot-path : (i : ℕ) → i ≤ m → str_eq (slot path i) path ≡ false
  slot-path i h = str_eq_ne (slot path i) path (λ (e : slot path i ≡ path).
      omega (arith, length-rotation_path path i, ap length (sym (slot_whole i h) ∙ e)))

  pub path_0-path : str_eq (path_0 path) path ≡ false
  path_0-path = str_eq_ne (path_0 path) path (λ (e : path_0 path ≡ path).
      omega (arith, length-append path (codes ".0"), ap length (sym path_0_whole ∙ e)))

  pub path_0-slot : (i : ℕ) → i ≤ m → str_eq (path_0 path) (slot path i) ≡ false
  path_0-slot i h = str_eq_ne (path_0 path) (slot path i) (λ (e : path_0 path ≡ slot path i).
      omega (
        arith,
        length-append path (codes ".0"),
        length-rotation_path path i,
        ap length (sym path_0_whole ∙ e ∙ slot_whole i h),
      ))

  pub path-slot : (i : ℕ) → i ≤ m → str_eq path (slot path i) ≡ false
  path-slot i h = str_eq_flip (slot path i) path (slot-path i h)

  pub path-path_0 : str_eq path (path_0 path) ≡ false
  path-path_0 = str_eq_flip (path_0 path) path path_0-path
