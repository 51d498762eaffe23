-- ===== src/Dispatch/Logged.antt =====
-- What `LogMessage` does with a message whose context is found.
use pmlogdaemon.Base.{
  ℕ, ◌+◌, ◌-◌, ◌≤◌, ◌≡◌, inl, inr, refl, ap, ◌∙◌, Bool, Option, none, some, arith, [], ◌∷◌, ◌++◌,
  Bytes, length, take, take_all, length-take, length-append, if◌then◌else◌, Bool-cases,
  Option-cases,
}
use pmlogdaemon.Base.GTree.{GTree}
use pmlogdaemon.Base.Int.{pos, leb_ℤ}
use pmlogdaemon.Base.Outcome.{Outcome, done}
use pmlogdaemon.Base.Strtol.{decimal}
use pmlogdaemon.Conf.{ContextConf}
use pmlogdaemon.Config.Context.{lookup_context, change_context}
use pmlogdaemon.Config.Context.Laws.{IsContext}
use pmlogdaemon.Dispatch.{
  Host, ClockFits, Daemon, output, flush_and_log, buffer_message, log_in_context,
}
use pmlogdaemon.Dispatch.Buffered.{buffered_text}
use pmlogdaemon.Dispatch.Laws.{IsDaemon, output-done, change_context-IsDaemon}
use pmlogdaemon.Dispatch.Flushed.{flush_and_log-IsDaemon}
use pmlogdaemon.Message.Priority.{lvl_of}
use pmlogdaemon.Message.Priority.Names.{PmLogLib}
use pmlogdaemon.Ring.{RingBuffer, min_buffer_size}
use pmlogdaemon.Ring.Bounds.{IsRing, unallocated, allocated}
use pmlogdaemon.Ring.Window.{contents, slide}
use pmlogdaemon.Ring.Write.{rb_write-Wrote}

ring_big : {rb : RingBuffer} → IsRing rb → min_buffer_size ≤ rb.buffer_size
ring_big (unallocated b e m) = m
ring_big (allocated b h) = h.big

-- The text has room for its NUL and one byte more.
buffered_text_short :
    (size pri : ℕ) (program line : Bytes) → length (buffered_text size pri program line) ≤ size - 2
unfolding buffered_text
buffered_text_short size pri program line =
    omega (arith, length-take (size - 2) (decimal pri ++ (b'/' ∷ (program ++ (b'/' ∷ line)))))

module _ {S : Type 0} (g : GTree ContextConf) (lib : PmLogLib) (host : Host S) (n : ℕ) where
  -- The branch of `LogMessage` that buffers, for a daemon that goes on and a context of it with a
  -- ring, returns and writes to no file: the text buffered and its NUL slide into the ring of the
  -- context, the configuration is otherwise the same, and the daemon goes on.
  pub buffer_message-slide :
      (me : Bytes) (conf : ContextConf) (rb : RingBuffer) (pri : ℕ) (program line : Bytes)
      (d : Daemon g lib host)
      → IsDaemon g lib host n d
      → lookup_context g d.config.contexts me ≡ some conf
      → conf.rb ≡ some rb
      → (after : RingBuffer) × (buffer_message g lib host me conf rb pri program line d
          ≡ done (record d {
            config = change_context g me (record conf { rb = some after }) d.config;
          }))
        × (contents after
            ≡ slide (contents rb) (buffered_text rb.buffer_size pri program line ++ 0 ∷ []))
        × IsDaemon g lib host n
            (record d { config = change_context g me (record conf { rb = some after }) d.config })
  unfolding buffer_message
  buffer_message-slide me conf rb pri program line d h there has =
      let ok : IsContext (length d.config.outputs) conf = h.valid.contexts_ok me conf there in
      let ring : IsRing rb = rw has at ok.ring in
      let text = buffered_text rb.buffer_size pri program line in
      let room : length text + 1 ≤ rb.buffer_size =
        omega (arith, buffered_text_short rb.buffer_size pri program line, ring_big ring) in
      let w = rb_write-Wrote rb text (length text + 1) ring (omega arith) room in
      let whole : take (length text + 1) (text ++ 0 ∷ []) ≡ text ++ 0 ∷ [] =
        take_all (text ++ 0 ∷ []) (length text + 1) (omega (arith, length-append text (0 ∷ []))) in
      let ok' : IsContext n (record conf { rb = some w.after }) =
        rw (← h.size)
          (record { named = ok.named; few = ok.few; ring = allocated w.block w.holds }) in
      (
        w.after,
        rw w.returns refl,
        rw (w.holds.at_hand, contents) (w.window ∙ ap (slide (contents rb)) whole),
        change_context-IsDaemon g lib host n me (record conf { rb = some w.after }) conf d h there
            ok',
      )

  -- `LogMessage`, from the ring buffer of a context on, returns for a daemon that goes on and a
  -- context of it, whatever the message, and leaves a daemon that goes on: no assertion fails, nothing
  -- goes outside a ring or the buffer of a time stamp, and every rule still names an output. The option
  -- `--fractional` asks for 14 digits at most, the buffer of the fraction is 16 bytes, and the clock
  -- gives less than a million microseconds.
  pub log_in_context-IsDaemon :
      ClockFits host
      → (me : Bytes) (conf : ContextConf) (pri : ℕ) (program line : Bytes) (d : Daemon g lib host)
      → IsDaemon g lib host n d
      → lookup_context g d.config.contexts me ≡ some conf
      → (d' : Daemon g lib host) × (log_in_context g lib host me conf pri program line d ≡ done d')
        × IsDaemon g lib host n d'
  unfolding log_in_context
  log_in_context-IsDaemon fits me conf pri program line d h there = elim (Option-cases conf.rb) [
    | inl off ↦
        let (s, e) =
          output-done g lib host conf pri program line d
            (h.valid.contexts_ok me conf there).named in
        (record d { sys = s }, ap choose off ∙ e, record { valid = h.valid; size = h.size })
    | inr (rb, has) ↦ elim (Bool-cases (leb_ℤ (pos (lvl_of pri)) rb.flush_level)) [
      | inl urgent ↦
          let (d', e, h', _, _, _) =
            flush_and_log-IsDaemon g lib host fits n me conf rb pri program line d h there has in
          (d', ap choose has ∙ ap (by_level rb) urgent ∙ e, h')
      | inr later ↦
          let (after, e, slid, h') =
            buffer_message-slide me conf rb pri program line d h there has in
          (_, ap choose has ∙ ap (by_level rb) later ∙ e, h')
    ]
  ]
    where
      by_level : RingBuffer → Bool → Outcome (Daemon g lib host)
      by_level rb urgent =
          if urgent
          then flush_and_log g lib host me conf rb pri program line d
          else buffer_message g lib host me conf rb pri program line d

      choose : Option RingBuffer → Outcome (Daemon g lib host)
      choose none = output g lib host conf pri program line d
      choose (some rb) = by_level rb (leb_ℤ (pos (lvl_of pri)) rb.flush_level)
