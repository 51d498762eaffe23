-- ===== src/Dispatch/Laws.antt =====
-- What a message does to the contexts of the daemon.
use pmlogdaemon.Base.{
  ℕ, ◌≡◌, inl, inr, refl, sym, ap, ◌∙◌, true, some, arith, List, [], ◌∷◌, Bytes, length, str_eq,
  if◌then◌else◌, Bool-cases, Option-cases,
}
use pmlogdaemon.Base.GTree.{GTree}
use pmlogdaemon.Base.Outcome.{Outcome, done, ◌>>=◌}
use pmlogdaemon.Conf.{ContextConf}
use pmlogdaemon.Config.Context.{lookup_context, change_context}
use pmlogdaemon.Config.Context.Laws.{
  IsConfig, IsContext, lookup-change_context, outputs-change_context,
}
use pmlogdaemon.Dispatch.{Host, Daemon, output, flush_message, flush_messages, flush_ring}
use pmlogdaemon.Dispatch.Buffered.{read_buffered}
use pmlogdaemon.Message.Priority.Names.{PmLogLib}
use pmlogdaemon.Ring.{RingBuffer}
use pmlogdaemon.Ring.Bounds.{IsRing}
use pmlogdaemon.Ring.Flush.{rb_flush-messages}
use pmlogdaemon.Ring.Messages.{messages}
use pmlogdaemon.Ring.Window.{contents}
use pmlogdaemon.Route.{output_message, write_wanted}
use pmlogdaemon.Route.Wanted.{AllNamed, want_outputs_last}

pub bind_done {ℓ} :
    {A B : Type ℓ} {m : Outcome A} {a : A} {b : Outcome B} (k : A → Outcome B)
    → m ≡ done a
    → k a ≡ b
    → (m >>= k) ≡ b
bind_done k e f = rw e f

module _ {S : Type 0} (g : GTree ContextConf) (lib : PmLogLib) (host : Host S) where
  -- A daemon that goes on: its configuration is one that it can run with, of `n` outputs.
  pub record IsDaemon (n : ℕ) (d : Daemon g lib host) : Type 0 where
    pub valid : IsConfig g d.config
    pub size : length d.config.outputs ≡ n

  pub output-done :
      (conf : ContextConf) (pri : ℕ) (program msg : Bytes) (d : Daemon g lib host)
      → AllNamed (length d.config.outputs) conf.rules
      → (s : S) × (output g lib host conf pri program msg d ≡ done (record d { sys = s }))
  unfolding output_message
  output-done conf pri program msg d named =
      let (want, e, l, w) =
        want_outputs_last (length d.config.outputs) pri (some program) conf.rules named in
      (write_wanted host.files msg 0 want d.sys, rw e refl)

  -- One context changed, with the rules that it had.
  pub change_context-IsDaemon :
      (n : ℕ) (key : Bytes) (conf old : ContextConf) (d : Daemon g lib host)
      → IsDaemon n d
      → lookup_context g d.config.contexts key ≡ some old
      → IsContext n conf
      → IsDaemon n (record d { config = change_context g key conf d.config })
  change_context-IsDaemon n key conf old d h there ok = record {
    valid = record {
      table = rw same h.valid.table;
      contexts_ok = λ name c e.
          rw (same, h.size)
            (context name c (sym (lookup-change_context g key name conf old d.config there) ∙ e));
    };
    size = ap length same ∙ h.size;
  }
    where
      same : (change_context g key conf d.config).outputs ≡ d.config.outputs
      same = outputs-change_context g key conf d.config

      context :
          (name : Bytes) (c : ContextConf)
          → (if str_eq key name then some conf else lookup_context g d.config.contexts name)
            ≡ some c
          → IsContext n c
      context name c e = elim (Bool-cases (str_eq key name)) [
        | inl is ↦ let it : conf ≡ c = ground arith in rw (← it) ok
        | inr other ↦ rw (← h.size) (h.valid.contexts_ok name c (ground arith))
      ]

  flush_message-done :
      (conf : ContextConf) (m : Bytes) (d : Daemon g lib host)
      → AllNamed (length d.config.outputs) conf.rules
      → (s : S) × (flush_message g lib host conf m d ≡ done (record d { sys = s }))
  unfolding flush_message
  flush_message-done conf m d named = elim (Option-cases (read_buffered m)) [
    | inl bad ↦ (d.sys, rw (flush_message, bad) refl)
    | inr ((pri, program, text), good) ↦
        let (s, e) = output-done conf pri program text d named in (s, rw (flush_message, good) e)
  ]

  flush_messages-done :
      (conf : ContextConf) (ms : List Bytes) (d : Daemon g lib host)
      → AllNamed (length d.config.outputs) conf.rules
      → (s : S) × (flush_messages g lib host conf ms d ≡ done (record d { sys = s }))
  unfolding flush_messages
  flush_messages-done conf [] d named = (d.sys, refl)
  flush_messages-done conf (m ∷ ms) d named =
      let (s₁, e₁) = flush_message-done conf m d named in
      let (s, e) = flush_messages-done conf ms (record d { sys = s₁ }) named in (s, rw e₁ e)

  -- A step that returns, after which the daemon goes on and the context `me` is as it was.
  pub record Goes (n : ℕ) (me : Bytes) (conf : ContextConf) (out : Outcome (Daemon g lib host))
      : Type 0 where
    pub after : Daemon g lib host
    pub returns : out ≡ done after
    pub daemon : IsDaemon n after
    pub same : lookup_context g after.config.contexts me ≡ some conf

  pub flush_ring-done :
      (n : ℕ) (key : Bytes) (conf : ContextConf) (rb : RingBuffer) (d : Daemon g lib host)
      → IsDaemon n d
      → lookup_context g d.config.contexts key ≡ some conf
      → conf.rb ≡ some rb
      → (s : S) × (cleared : RingBuffer) × (flush_ring g lib host key conf rb d
          ≡ done (record d {
            config = change_context g key (record conf { rb = some cleared }) d.config;
            sys = s;
          }))
        × (cleared.is_empty ≡ true)
        × IsDaemon n (record d {
          config = change_context g key (record conf { rb = some cleared }) d.config;
          sys = s;
        })
  unfolding flush_ring
  flush_ring-done n key conf rb d h there has =
      let ok : IsContext (length d.config.outputs) conf = h.valid.contexts_ok key conf there in
      let ring : IsRing rb = rw has at ok.ring in
      let (cleared, e, ring', empty, c, z, l) = rb_flush-messages rb ring in
      let (s, f) = flush_messages-done conf (messages (contents rb)) d ok.named in
      let conf' = record conf { rb = some cleared } in
      let ok' : IsContext n conf' =
        rw (← h.size) (record { named = ok.named; few = ok.few; ring = ring' }) in
      (
        s,
        cleared,
        rw (e, f) refl,
        empty,
        change_context-IsDaemon n key conf' conf (record d { sys = s })
            (record { valid = h.valid; size = h.size }) there ok',
      )
