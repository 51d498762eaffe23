-- ===== src/Whitelist/Laws.antt =====
-- What the whitelist of a file holds, and which messages it lets through.
use pmlogdaemon.Base.{
  ℕ, ◌≤◌, ◌<◌, ◌≡◌, ◌∙◌, refl, ap, Bool, false, ◌||◌, some, List, [], ◌∷◌, ◌++◌, arith, Bytes,
  length, length-append, take_all, ◌==◌, if◌then◌else◌, str_eq,
}
use pmlogdaemon.Base.Outcome.{done}
use pmlogdaemon.Message.Token.{IsWord, parse_msg_context_word}
use pmlogdaemon.Whitelist.{
  is_blank, AllBlank, IsLine, Strings, HashSet, join_words, add_line, add_lines, load_whitelist,
  is_listed,
}

-- A line of the file: the context, the blanks, and the identifier.
pub record Entry : Type 0 where
  pub context : Bytes
  pub blanks : Bytes
  pub msgid : Bytes

pub record IsEntry (e : Entry) : Type 0 where
  pub context_word : IsWord e.context
  pub some_context : 0 < length e.context
  pub blank : AllBlank e.blanks
  pub apart : 0 < length e.blanks
  pub msgid_word : IsWord e.msgid
  pub some_msgid : 0 < length e.msgid

abbrev pub AllEntries : List Entry → Type 0
AllEntries [] = Unit
AllEntries (e ∷ es) = IsEntry e × AllEntries es

abbrev line_of : Entry → Bytes
line_of e = e.context ++ (e.blanks ++ e.msgid)

abbrev key_of : Entry → Bytes
key_of e = e.context ++ (b'/' ∷ e.msgid)

abbrev pub print_whitelist : List Entry → Bytes
print_whitelist [] = []
print_whitelist (e ∷ es) = line_of e ++ 10 ∷ print_whitelist es

-- Whether an entry has this key.
abbrev pub holds : List Entry → Bytes → Bool
holds [] k = false
holds (e ∷ es) k = str_eq (key_of e) k || holds es k

word-IsLine : (s : Bytes) → IsWord s → IsLine s
word-IsLine [] h = tt
word-IsLine (c ∷ s) (one, h) = (ground (arith, one), word-IsLine s h)

blank-IsLine : (s : Bytes) → AllBlank s → IsLine s
blank-IsLine [] h = tt
blank-IsLine (c ∷ s) (one, h) = (ground (arith, one), blank-IsLine s h)

IsLine-append : (s t : Bytes) → IsLine s → IsLine t → IsLine (s ++ t)
IsLine-append [] t h g = g
IsLine-append (c ∷ s) t (one, h) g = (one, IsLine-append s t h g)

module _ (glib : Strings) (h : HashSet) where
  joined :
      (context blanks msgid : Bytes)
      → IsWord context
      → AllBlank blanks
      → 0 < length blanks
      → IsWord msgid
      → 0 < length msgid
      → join_words glib h (context ++ (blanks ++ msgid)) ≡ some (context ++ (b'/' ∷ msgid))
  unfolding join_words
  joined [] [] msgid solid blank some_blank word some_word = absurd (omega arith)
  joined [] (b ∷ bs) msgid solid (one, blank) some_blank word some_word =
      let rest : glib.chug (bs ++ msgid) ≡ msgid = glib.chug_lem bs msgid blank word some_word in
      rw (one, rest) (ground arith)
  joined (c ∷ context) blanks msgid (one, solid) blank some_blank word some_word =
      let other : is_blank c ≡ false = ground (arith, one) in
      let rest = joined context blanks msgid solid blank some_blank word some_word in
      rw (other, rest) refl

  entry_length : (e : Entry) → IsEntry e → 0 < length (line_of e)
  entry_length e ok = omega (arith, length-append e.context (e.blanks ++ e.msgid), ok.some_context)

  add_line-entry :
      (e : Entry) (t : h.Table) → IsEntry e → add_line glib h (line_of e) t ≡ h.add (key_of e) t
  unfolding add_line
  add_line-entry e t ok =
      let some_line : (length (line_of e) == 0) ≡ false = ground (arith, entry_length e ok) in
      let stripped =
        glib.strip_lem e.context e.blanks e.msgid ok.context_word ok.some_context ok.msgid_word
          ok.some_msgid in
      let key =
        joined e.context e.blanks e.msgid ok.context_word ok.blank ok.apart ok.msgid_word
          ok.some_msgid in
      rw (some_line, stripped, key) refl

  abbrev add_entries : List Entry → h.Table → h.Table
  add_entries [] t = t
  add_entries (e ∷ es) t = add_entries es (h.add (key_of e) t)

  last_piece :
      (es : List Entry) (t : h.Table)
      → AllEntries es
      → add_lines glib h
          (if length (print_whitelist es) == 0 then [] ∷ [] else glib.split (print_whitelist es))
          t
        ≡ add_lines glib h (glib.split (print_whitelist es)) t
  unfolding add_lines
  last_piece [] t ok = rw glib.split_empty refl
  last_piece (e ∷ es) t (one, ok) =
      let more : (length (line_of e ++ 10 ∷ print_whitelist es) == 0) ≡ false =
        ground (arith, entry_length e one, length-append (line_of e) (10 ∷ print_whitelist es)) in
      rw more refl

  add_lines-print :
      (es : List Entry) (t : h.Table)
      → AllEntries es
      → add_lines glib h (glib.split (print_whitelist es)) t ≡ add_entries es t
  unfolding add_lines
  add_lines-print [] t ok = rw glib.split_empty refl
  add_lines-print (e ∷ es) t (one, ok) =
      let line =
        IsLine-append e.context (e.blanks ++ e.msgid) (word-IsLine e.context one.context_word) (
          IsLine-append e.blanks e.msgid (blank-IsLine e.blanks one.blank)
            (word-IsLine e.msgid one.msgid_word)) in
      let rest : List Bytes =
        if length (print_whitelist es) == 0 then [] ∷ [] else glib.split (print_whitelist es) in
      rw (glib.split_line (line_of e) (print_whitelist es) line) (
        ap (add_lines glib h rest) (add_line-entry e t one)
        ∙ last_piece es (h.add (key_of e) t) ok
        ∙ add_lines-print es (h.add (key_of e) t) ok)

  has-add_entries :
      (es : List Entry) (t : h.Table) (k : Bytes)
      → h.has (add_entries es t) k ≡ (holds es k || h.has t k)
  has-add_entries [] t k = refl
  has-add_entries (e ∷ es) t k =
      has-add_entries es (h.add (key_of e) t) k ∙ rw (h.has-add (key_of e) k t) (ground arith)

  -- A file of lines "<context><blanks><identifier>" makes the set of exactly the keys
  -- "<context>/<identifier>", and the test passes exactly the messages whose context and identifier,
  -- of at most 32 bytes, are such a key.
  pub load_whitelist-is_listed :
      (es : List Entry) (context left msgid rest : Bytes) (c : ℕ)
      → AllEntries es
      → IsWord msgid
      → 0 < length msgid
      → length msgid ≤ 32
      → ((k : Bytes) → h.has (load_whitelist glib h (some (print_whitelist es))).1 k ≡ holds es k)
        × (is_listed h
              (load_whitelist glib h (some (print_whitelist es))).1
              (record { context = context; left = left; curr = c ∷ (msgid ++ (b' ' ∷ rest)) })
            ≡ done (holds es (context ++ (b'/' ∷ msgid))))
  unfolding load_whitelist is_listed
  load_whitelist-is_listed es context left msgid rest c ok word some_word fits =
      let has : (k : Bytes)
          → h.has (load_whitelist glib h (some (print_whitelist es))).1 k ≡ holds es k =
        λ k.
          ap (λ t. h.has t k) (add_lines-print es h.new ok)
          ∙ has-add_entries es h.new k
          ∙ rw (h.has-new k) (ground arith) in
      let read = (parse_msg_context_word 33 msgid rest b' ' word some_word (omega arith) refl).0 in
      let some_text : (length (c ∷ (msgid ++ b' ' ∷ rest)) == 0) ≡ false = ground arith in
      (
        has,
        rw (some_text, read, take_all msgid 32 fits) (ap done (has (context ++ (b'/' ∷ msgid)))),
      )
