-- ===== src/Base/GTree.antt =====
-- GLib's balanced tree with string keys under `strcmp`, as the daemon uses it: what it relies on of
-- `g_tree_new_full`, `g_tree_insert`, `g_tree_lookup`, `g_tree_nnodes` and `g_tree_foreach`.
-- A value is changed in place through the pointer that a lookup returns; that is `update` here.
use Prim.Native.Nat.{ℕ}
use mathlib.Core.Path.{◌≡◌}
use mathlib.Core.Option.{Option, none, some}
use mathlib.Core.List.{List}
use pmlogdaemon.Base.Tests.{if◌then◌else◌}
use pmlogdaemon.Base.Text.{Bytes, str_eq}

pub record GTree (V : Type 0) : Type 1 where
  pub Tree : Type 0
  pub new : Tree
  pub insert : Bytes → V → Tree → Tree
  pub update : Bytes → V → Tree → Tree
  pub lookup : Tree → Bytes → Option V
  pub nnodes : Tree → ℕ
  -- the entries in the order of `g_tree_foreach`
  pub entries : Tree → List (Bytes × V)
  pub lookup-new : (k : Bytes) → lookup new k ≡ none
  pub lookup-insert :
      (k j : Bytes) (v : V) (t : Tree)
      → lookup (insert k v t) j ≡ (if str_eq k j then some v else lookup t j)
  pub lookup-update :
      (k j : Bytes) (v old : V) (t : Tree)
      → lookup t k ≡ some old
      → lookup (update k v t) j ≡ (if str_eq k j then some v else lookup t j)
