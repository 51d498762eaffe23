-- ===== src/Whitelist.antt =====
-- src/main.c: `LoadWhitelist`, and the test that `LogMessage` makes in a production build.
pub mod Laws
use pmlogdaemon.Base.{
  ℕ, ◌+◌, ◌<◌, ◌≡◌, Bool, true, false, not, ◌&&◌, ◌||◌, Option, none, some, List, [], ◌∷◌, ◌++◌,
  Bytes, length, drop, is_space, ◌==◌, if◌then◌else◌, str_eq,
}
use pmlogdaemon.Base.GTree.{GTree}
use pmlogdaemon.Base.Outcome.{Outcome, done, overflow, ◌>>=◌}
use pmlogdaemon.Conf.{ContextConf}
use pmlogdaemon.Dispatch.{Host, Daemon}
use pmlogdaemon.Dispatch.Log.{Addressed, plain_build, log_message_if}
use pmlogdaemon.Message.Priority.Names.{PmLogLib}
use pmlogdaemon.Message.Token.{IsWord, parse_msg_context}

abbrev pub is_blank : ℕ → Bool
is_blank c = c == b' ' || c == 9

abbrev pub AllBlank : Bytes → Type 0
AllBlank [] = Unit
AllBlank (c ∷ s) = (is_blank c ≡ true) × AllBlank s

-- No byte of a line is a newline.
abbrev pub IsLine : Bytes → Type 0
IsLine [] = Unit
IsLine (c ∷ s) = ((c == 10) ≡ false) × IsLine s

-- The string functions of GLib: `g_strsplit` at newlines, `g_strstrip` and `g_strchug`.
pub record Strings : Type 0 where
  pub split : Bytes → List Bytes
  pub strip : Bytes → Bytes
  pub chug : Bytes → Bytes
  pub split_empty : split [] ≡ []
  pub split_line :
      (l rest : Bytes)
      → IsLine l
      → split (l ++ 10 ∷ rest) ≡ l ∷ (if length rest == 0 then [] ∷ [] else split rest)
  pub strip_lem :
      (v m w : Bytes)
      → IsWord v
      → 0 < length v
      → IsWord w
      → 0 < length w
      → strip (v ++ (m ++ w)) ≡ v ++ (m ++ w)
  pub chug_lem : (m w : Bytes) → AllBlank m → IsWord w → 0 < length w → chug (m ++ w) ≡ w

-- GLib's hash table as a set of strings under `g_str_equal`.
pub record HashSet : Type 1 where
  pub Table : Type 0
  pub new : Table
  pub add : Bytes → Table → Table
  pub has : Table → Bytes → Bool
  pub has-new : (k : Bytes) → has new k ≡ false
  pub has-add : (k j : Bytes) (t : Table) → has (add k t) j ≡ (str_eq k j || has t j)

-- `MAX_MSGID_LEN`
abbrev pub max_msgid_len : ℕ
max_msgid_len = 32

module _ (glib : Strings) (h : HashSet) where
  -- The loop over `sep`: the entry with its first blank replaced, none where nothing stands behind.
  unfoldable pub join_words : Bytes → Option Bytes
  join_words [] = none
  join_words (c ∷ s) =
      let rest = join_words s in
      if is_blank c
      then (if length (glib.chug s) == 0 then none else some (b'/' ∷ glib.chug s))
      else elim rest [ none ↦ none | some key ↦ some (c ∷ key) ]

  -- One round of the loop over the lines.
  unfoldable pub add_line : Bytes → h.Table → h.Table
  unfolding join_words
  add_line line t =
      if length line == 0
      then t
      else elim (join_words (glib.strip line)) [ none ↦ t | some key ↦ h.add key t ]

  unfoldable pub add_lines : List Bytes → h.Table → h.Table
  unfolding add_line
  add_lines [] t = t
  add_lines (line ∷ lines) t = add_lines lines (add_line line t)

  -- `LoadWhitelist`, with what the file holds, none where it could not be read.
  unfoldable pub load_whitelist : Option Bytes → Bool × h.Table
  unfolding add_lines
  load_whitelist none = (false, h.new)
  load_whitelist (some raw) = (true, add_lines (glib.split raw) h.new)

module _ (h : HashSet) where
  -- The test of `LogMessage` in a production build: `++msgCurr` stands behind the end where the
  -- text is empty.
  unfoldable pub is_listed : h.Table → Addressed → Outcome Bool
  is_listed table a = if length a.curr == 0 then overflow else (do
    word ← parse_msg_context (max_msgid_len + 1) (drop 1 a.curr)
    let msgid : Bytes = elim word [ none ↦ [] | some (rest, id) ↦ id ]
    done (h.has table (a.context ++ (b'/' ∷ msgid))))

  -- `LogMessage` in a production build.
  unfoldable pub log_listed_message :
      {S : Type 0} (lib : PmLogLib) (g : GTree ContextConf) (host : Host S)
      → h.Table
      → ℕ
      → Bytes
      → Daemon g lib host
      → Outcome (Daemon g lib host)
  unfolding is_listed
  log_listed_message lib g host table pri msg d =
      log_message_if lib g host (record plain_build { test = is_listed table }) pri msg d
