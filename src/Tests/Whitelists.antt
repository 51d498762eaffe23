-- ===== src/Tests/Whitelists.antt =====
-- Runs of the whitelist of src/main.c.
use pmlogdaemon.Base.{
  ℕ, ◌<◌, ◌≡◌, refl, ap, ◌∙◌, Bool, true, false, ◌||◌, List, [], ◌∷◌, ◌++◌, arith, some, Bytes,
  codes, length, is_space, ◌==◌, if◌then◌else◌, str_eq,
}
use pmlogdaemon.Base.Outcome.{done}
use pmlogdaemon.Message.Token.{IsWord}
use pmlogdaemon.Whitelist.{AllBlank, IsLine, Strings, HashSet, load_whitelist, is_listed}
use pmlogdaemon.Whitelist.Laws.{Entry, print_whitelist, holds, load_whitelist-is_listed}

-- A line with one byte more.
abbrev pub push : ℕ → List Bytes → List Bytes
push c [] = (c ∷ []) ∷ []
push c (l ∷ ls) = (c ∷ l) ∷ ls

abbrev pub pieces : Bytes → List Bytes
pieces [] = [] ∷ []
pieces (c ∷ s) = if c == 10 then [] ∷ pieces s else push c (pieces s)

abbrev pub split : Bytes → List Bytes
split [] = []
split (c ∷ s) = pieces (c ∷ s)

pub pieces_line : (l rest : Bytes) → IsLine l → pieces (l ++ 10 ∷ rest) ≡ l ∷ pieces rest
pieces_line [] rest h = refl
pieces_line (c ∷ l) rest (one, h) = rw (one, pieces_line l rest h) refl

pub pieces-split : (s : Bytes) → pieces s ≡ (if length s == 0 then [] ∷ [] else split s)
pieces-split [] = refl
pieces-split (c ∷ s) = ground arith

pub split_of_line :
    (l rest : Bytes)
    → IsLine l
    → split (l ++ 10 ∷ rest) ≡ l ∷ (if length rest == 0 then [] ∷ [] else split rest)
split_of_line [] rest h = pieces_line [] rest h ∙ ap (◌∷◌ []) (pieces-split rest)
split_of_line (c ∷ l) rest h = pieces_line (c ∷ l) rest h ∙ ap (◌∷◌ (c ∷ l)) (pieces-split rest)

abbrev pub chug : Bytes → Bytes
chug [] = []
chug (c ∷ s) = if is_space c then chug s else c ∷ s

pub chug_blanks : (m w : Bytes) → AllBlank m → IsWord w → 0 < length w → chug (m ++ w) ≡ w
chug_blanks [] [] blank word some_word = refl
chug_blanks [] (c ∷ w) blank (one, word) some_word = rw one refl
chug_blanks (c ∷ m) w (one, blank) word some_word =
    let space : is_space c ≡ true = ground (arith, one) in
    rw space (chug_blanks m w blank word some_word)

-- Texts without blanks around them need no stripping.
abbrev glib : Strings
glib = record {
  split = split;
  strip = λ s. s;
  chug = chug;
  split_empty = refl;
  split_line = split_of_line;
  strip_lem = λ v m w a b c d. refl;
  chug_lem = chug_blanks;
}

abbrev pub member : List Bytes → Bytes → Bool
member [] k = false
member (x ∷ xs) k = str_eq x k || member xs k

abbrev set : HashSet
set = record {
  Table = List Bytes;
  new = [];
  add = λ k t. k ∷ t;
  has = member;
  has-new = λ k. refl;
  has-add = λ k j t. refl;
}

abbrev entries : List Entry
entries = record { context = codes "ls2"; blanks = codes " "; msgid = codes "ERR" } ∷ []

load_whitelist-is_listed_example :
    ((k : Bytes)
      → member (load_whitelist glib set (some (print_whitelist entries))).1 k ≡ holds entries k)
    × (is_listed set (load_whitelist glib set (some (print_whitelist entries))).1 (record {
      context = codes "ls2";
      left = [];
      curr = b' ' ∷ (codes "ERR" ++ (b' ' ∷ codes "text"));
    })
        ≡ done (holds entries (codes "ls2" ++ (b'/' ∷ codes "ERR"))))
load_whitelist-is_listed_example =
    load_whitelist-is_listed glib set entries (codes "ls2") [] (codes "ERR") (codes "text") b' '
      (
        record {
          context_word = (refl, (refl, (refl, tt)));
          some_context = omega arith;
          blank = (refl, tt);
          apart = omega arith;
          msgid_word = (refl, (refl, (refl, tt)));
          some_msgid = omega arith;
        },
        tt,
      )
      (refl, (refl, (refl, tt))) (omega arith) (omega arith)
