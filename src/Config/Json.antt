-- ===== src/Config/Json.antt =====
-- src/config.c: `ParseJsonOutputs` and `ParseJsonContexts`, over the documents of pbnjson.
pub mod Outputs
pub mod Contexts
pub mod Laws
use pmlogdaemon.Base.{
  ℕ, Bool, true, false, ◌&&◌, not, Option, none, some, List, [], ◌∷◌, Bytes, codes, str_eq, ◌==◌,
  if◌then◌else◌,
}
use pmlogdaemon.Base.Int.{ℤ}

-- The accessors of a parsed document: `jis_null`, `jobject_get_exists`, the elements of an array
-- (`jarray_size`, `jarray_get`), `jstring_get` (none: a null `m_str`) and `jnumber_get_i32` (whether
-- it is CONV_OK, and what the variable then holds that held the number given).
pub record Json : Type 1 where
  pub Value : Type 0
  pub is_null : Value → Bool
  pub get_exists : Value → Bytes → Option Value
  pub elements : Value → List Value
  pub jstring : Value → Option Bytes
  pub number : Value → ℤ → Bool × ℤ

-- What a round of a loop leaves: whether the loop goes on, `ret`, and the state.
pub record Round (S : Type 0) : Type 0 where
  pub on : Bool
  pub ret : Bool
  pub state : S

-- `basename`: what stands behind the last slash.
abbrev basename_from : Bytes → Bytes → Bytes
basename_from acc [] = acc
basename_from acc (c ∷ s) = if c == b'/' then basename_from s s else basename_from acc s

unfoldable pub is_default_conf : Bytes → Bool
is_default_conf file_name = str_eq (codes "default.conf") (basename_from file_name file_name)
