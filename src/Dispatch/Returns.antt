-- ===== src/Dispatch/Returns.antt =====
-- `LogMessage`, `ProcessMessage` and `HandleNewLog` as a whole return, on messages whose parts fit.
use pmlogdaemon.Base.{
  ℕ, ◌+◌, ◌-◌, ◌≤◌, ◌<◌, ◌≡◌, ◌↔◌, inl, inr, refl, ◌∙◌, Bool, true, false, none, some, [], ◌∷◌,
  ◌++◌, arith, Bytes, length, take, replicate, length-take, length-append, length-replicate, min,
  is_space, leb, if◌then◌else◌, Bool-cases, Option-cases,
}
use pmlogdaemon.Base.Outcome.{done, overflow, Returns, Returns-bind, Returns-option}
use pmlogdaemon.Conf.{program_max_name_length}
use pmlogdaemon.Dispatch.{msg_program_size}
use pmlogdaemon.Dispatch.Log.{split_program, add_pid_tid, address}
use pmlogdaemon.Message.PidTid.{parse_msg_pid_tid}
use pmlogdaemon.Message.Priority.Names.{PmLogLib}
use pmlogdaemon.Message.Program.{Program, span, behind_colon, cut_index}
use pmlogdaemon.Message.Program.Returns.{
  parse_msg_program-none, parse_msg_program-some, write_at-Sized,
}
use pmlogdaemon.Message.Token.{word, parse_msg_context, parse_msg_tag}
use pmlogdaemon.Ring.{write_at}

abbrev pub has_space : Bytes → Bool
has_space [] = false
has_space (c ∷ s) = if is_space c then true else has_space s

word-Returns : (s : Bytes) → has_space s ≡ true → Returns (word s)
unfolding word
word-Returns [] h = cc
word-Returns (c ∷ s) h = elim (Bool-cases (is_space c)) [
  | inl e ↦ (([], c ∷ s), rw e refl)
  | inr e ↦ let (r, d) = word-Returns s (rw e at h) in ((c ∷ r.0, r.1), rw (e, d) refl)
]

parse_msg_context-Returns :
    (size : ℕ) (s : Bytes) → has_space s ≡ true → Returns (parse_msg_context size s)
unfolding parse_msg_context
parse_msg_context-Returns size s h = Returns-bind _ (word-Returns s h) (λ r e. (_, refl))

-- What stands behind the name of the program and behind the prefix of the logging library, and where
-- the name was cut.
abbrev pub behind_name : Bytes → Bytes
behind_name msg = elim (behind_colon (span msg)) [ none ↦ msg | some next ↦ next ]

abbrev pub name_end : Bytes → ℕ
name_end msg = elim (behind_colon (span msg)) [ none ↦ 0 | some next ↦ cut_index (span msg) ]

abbrev pub behind_pid : Bytes → Bytes
behind_pid s = elim (parse_msg_pid_tid s) [ none ↦ s | some next ↦ next ]

-- A message whose name and prefix fit together in the buffer for them, and whose context, where the
-- logging library has sent it, ends in a space.
pub record Readable (identifier msg : Bytes) : Type 0 where
  pub name :
      (next : Bytes)
      → behind_colon (span msg) ≡ some next
      → cut_index (span msg) + 1 < msg_program_size
  pub pid :
      (next : Bytes)
      → parse_msg_pid_tid (behind_name msg) ≡ some next
      → name_end msg + 2 + (length (behind_name msg) - length next) ≤ msg_program_size
  pub tag :
      (next : Bytes)
      → parse_msg_tag identifier (behind_pid (behind_name msg)) ≡ some next
      → has_space next ≡ true

abbrev large : Bytes
large = replicate msg_program_size 0

pub split_program-returns :
    (msg : Bytes)
    → ((next : Bytes)
        → behind_colon (span msg) ≡ some next
        → cut_index (span msg) + 1 < msg_program_size)
    → (p : Program) × (split_program msg ≡ done p)
      × (p.next ≡ behind_name msg)
      × (p.name_len ≡ name_end msg)
      × (length p.full ≡ msg_program_size)
unfolding split_program
split_program-returns msg fits =
    let size : length large ≡ msg_program_size = length-replicate {A = ℕ} msg_program_size 0 in
    let small : Bytes = replicate (program_max_name_length + 1) 0 in
    let small_size : length small ≡ program_max_name_length + 1 =
      length-replicate {A = ℕ} (program_max_name_length + 1) 0 in
    elim (Option-cases (behind_colon (span msg))) [
      | inl no_name ↦ (
        record { next = msg; full = large; name = small; name_len = 0 },
        rw (parse_msg_program-none large small msg (omega arith) (omega arith) no_name) refl,
        rw (behind_name, no_name) refl,
        rw (name_end, no_name) refl,
        size,
      )
      | inr (next, cut) ↦
          let (p, e, n, l, f) =
            parse_msg_program-some large small msg next (omega (arith, fits next cut)) (omega arith)
              cut in
          (p, rw e refl, rw (behind_name, cut) n, rw (name_end, cut) l, f ∙ size)
    ]

-- What `snprintf` writes of the prefix.
prefix_length :
    (n : ℕ) (s next : Bytes)
    → length (take (msg_program_size - n) (take (length s - length next) s) ++ 0 ∷ [])
      ≡ min (msg_program_size - n) (length s - length next) + 1
prefix_length n s next = omega (
  arith,
  length-append (take (msg_program_size - n) (take (length s - length next) s)) (0 ∷ []),
  length-take (msg_program_size - n) (take (length s - length next) s),
  length-take (length s - length next) s,
)

-- Of a message with a pid and a tid, whose name fits a buffer of 256 bytes with a NUL: the prefix is
-- written past the end of that buffer exactly when name, space, prefix and NUL are longer than it.
pub add_pid_tid_iff :
    (p : Program) (next : Bytes)
    → parse_msg_pid_tid p.next ≡ some next
    → length p.full ≡ msg_program_size
    → p.name_len + 1 < msg_program_size
    → (add_pid_tid p ≡ overflow)
      ↔ (msg_program_size < p.name_len + 2 + (length p.next - length next))
unfolding add_pid_tid
add_pid_tid_iff p next e size fits =
    let k = length p.next - length next in
    let text = take (msg_program_size - p.name_len) (take k p.next) ++ 0 ∷ [] in
    let text_length : length text ≡ min (msg_program_size - p.name_len) k + 1 =
      prefix_length p.name_len p.next next in
    rw (add_pid_tid, e)
      (unfold write_at in
        elim (Bool-cases (leb (p.name_len + 1 + length text) (length p.full))) [
          | inl room ↦ rw room (λ e. cc, λ long. ground (arith, room, size, text_length))
          | inr past ↦ rw past (λ e. ground (arith, past, size, text_length), λ long. refl)
        ])

pub add_pid_tid-returns :
    (p : Program)
    → length p.full ≡ msg_program_size
    → ((next : Bytes)
        → parse_msg_pid_tid p.next ≡ some next
        → p.name_len + 2 + (length p.next - length next) ≤ msg_program_size)
    → (p' : Program) × (add_pid_tid p ≡ done p') × (p'.next ≡ behind_pid p.next)
unfolding add_pid_tid
add_pid_tid-returns p size fits = elim (Option-cases (parse_msg_pid_tid p.next)) [
  | inl no_pid ↦ (p, rw (add_pid_tid, no_pid) refl, rw (behind_pid, no_pid) refl)
  | inr (next, pid) ↦
      let room = fits next pid in
      let text =
        take (msg_program_size - p.name_len) (take (length p.next - length next) p.next)
        ++ 0 ∷ [] in
      let (b, e, l) =
        write_at-Sized p.full (p.name_len + 1) text
          (omega (arith, prefix_length p.name_len p.next next)) in
      (record p { next = next; full = b }, rw (add_pid_tid, pid, e) refl, rw (behind_pid, pid) refl)
]

pub address-Returns :
    (lib : PmLogLib) (s : Bytes)
    → ((next : Bytes) → parse_msg_tag lib.identifier s ≡ some next → has_space next ≡ true)
    → Returns (address lib s)
unfolding address
address-Returns lib s spaced =
    Returns-option (parse_msg_tag lib.identifier s) _ (_, refl)
      (λ next tagged.
        Returns-bind _
          (parse_msg_context-Returns (lib.max_context_name_len + 1) next (spaced next tagged))
          (λ r e. (_, refl)))
