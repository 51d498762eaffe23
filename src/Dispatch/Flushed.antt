-- ===== src/Dispatch/Flushed.antt =====
-- The flush that `LogMessage` in src/main.c makes for a message of the flush level: the rings of the other
-- contexts, then its own.
use pmlogdaemon.Base.{
  ℕ, ◌≡◌, inl, inr, refl, ◌∙◌, true, false, some, List, [], ◌∷◌, ◌++◌, Bytes, length, str_eq,
  Bool-cases, Option-cases, codes, str_eq_iff,
}
use pmlogdaemon.Base.GTree.{GTree}
use pmlogdaemon.Base.Outcome.{done}
use pmlogdaemon.Conf.{ContextConf}
use pmlogdaemon.Config.Context.{lookup_context, change_context}
use pmlogdaemon.Config.Context.Laws.{lookup-change_context, outputs-change_context}
use pmlogdaemon.Dispatch.{
  Host, ClockFits, Daemon, stamp, pri_size, pmsyslogd, flushing_for, done_flushing, flush_other,
  flush_not_me, flush_others, flush_and_log, context_keys,
}
use pmlogdaemon.Dispatch.Stamp.Laws.{make_message_timestamp-Returns}
use pmlogdaemon.Message.Priority.{syslog_info}
use pmlogdaemon.Message.Priority.Names.{PmLogLib, format_pri}
use pmlogdaemon.Ring.{RingBuffer}
use pmlogdaemon.Route.{output_message}
use pmlogdaemon.Route.Wanted.{AllNamed}
use pmlogdaemon.Dispatch.Laws.{IsDaemon, Goes, bind_done, output-done, flush_ring-done}

-- With a clock that fits, a call of `MakeMessageTimestamp` returns.
pub stamp-done :
    {S : Type 0} (g : GTree ContextConf) (lib : PmLogLib) (host : Host S)
    → ClockFits host
    → (d : Daemon g lib host)
    → (t : Bytes) × (s : S) × (stamp g lib host d ≡ done (t, record d { sys = s }))
unfolding stamp
stamp-done g lib host fits d =
    let (text, e) =
      make_message_timestamp-Returns host.settings (host.read_clock d.sys).0 (host.stack d.sys)
        (fits.block d.sys) (fits.usec d.sys) fits.digits in
    (text, (host.read_clock d.sys).1, rw e refl)

module _ {S : Type 0} (g : GTree ContextConf) (lib : PmLogLib) (host : Host S)
    (fits : ClockFits host) where
  -- Two outputs around a flush of the ring of a context.
  flush_other-Goes :
      (n : ℕ) (me key : Bytes) (me_conf conf : ContextConf) (rb : RingBuffer)
      (d : Daemon g lib host)
      → IsDaemon g lib host n d
      → lookup_context g d.config.contexts me ≡ some me_conf
      → str_eq key me ≡ false
      → lookup_context g d.config.contexts key ≡ some conf
      → conf.rb ≡ some rb
      → Goes g lib host n me me_conf (flush_other g lib host me_conf key conf rb d)
  unfolding flush_other
  flush_other-Goes n me key me_conf conf rb d h there other found has =
      let ok = h.valid.contexts_ok key conf found in
      let (t, s₁, e₁) = stamp-done g lib host fits d in
      let pri_str = format_pri lib pri_size syslog_info in
      let start =
        flushing_for t pri_str conf.context_name (codes "context ") me_conf.context_name in
      let (s₂, e₂) =
        output-done g lib host conf syslog_info pmsyslogd start (record d { sys = s₁ }) ok.named in
      let (s₃, cleared, e₃, em, h₃) =
        flush_ring-done g lib host n key conf rb (record d { sys = s₂ })
          (record { valid = h.valid; size = h.size }) found has in
      let c = change_context g key (record conf { rb = some cleared }) d.config in
      let same : c.outputs ≡ d.config.outputs =
        outputs-change_context g key (record conf { rb = some cleared }) d.config in
      let (t', s₄, e₄) = stamp-done g lib host fits (record { config = c; sys = s₃ }) in
      let named : AllNamed (length c.outputs) conf.rules = rw same ok.named in
      let (s₅, e₅) =
        output-done g lib host conf syslog_info pmsyslogd
          (done_flushing t' pri_str conf.context_name) (record { config = c; sys = s₄ }) named in
      record {
        after = record { config = c; sys = s₅ };
        returns = bind_done _ e₁ (bind_done _ e₂ (bind_done _ e₃ (bind_done _ e₄ e₅)));
        daemon = record { valid = h₃.valid; size = h₃.size };
        same =
            lookup-change_context g key me (record conf { rb = some cleared }) conf d.config found
            ∙ rw other there;
      }

  flush_not_me-Goes :
      (n : ℕ) (me key : Bytes) (me_conf : ContextConf) (d : Daemon g lib host)
      → IsDaemon g lib host n d
      → lookup_context g d.config.contexts me ≡ some me_conf
      → Goes g lib host n me me_conf (flush_not_me g lib host me me_conf key d)
  unfolding flush_not_me output_message
  flush_not_me-Goes n me key me_conf d h there = elim (Bool-cases (str_eq key me)) [
    | inl mine ↦ stay (rw (flush_not_me, mine) refl)
    | inr other ↦ elim (Option-cases (lookup_context g d.config.contexts key)) [
      | inl missing ↦ stay (rw (flush_not_me, other, missing) refl)
      | inr (conf, found) ↦ elim (Option-cases conf.rb) [
        | inl off ↦ stay (rw (flush_not_me, other, found, off) refl)
        | inr (rb, has) ↦ elim (Bool-cases rb.is_empty) [
          | inl empty ↦ stay (rw (flush_not_me, other, found, has, empty) refl)
          | inr full ↦
              let x = flush_other-Goes n me key me_conf conf rb d h there other found has in
              let branch : flush_not_me g lib host me me_conf key d
                  ≡ flush_other g lib host me_conf key conf rb d =
                rw (flush_not_me, other, found, has, full) refl in
              record {
                after = x.after;
                returns = branch ∙ x.returns;
                daemon = x.daemon;
                same = x.same;
              }
        ]
      ]
    ]
  ]
    where
      stay :
          flush_not_me g lib host me me_conf key d ≡ done d
          → Goes g lib host n me me_conf (flush_not_me g lib host me me_conf key d)
      stay e = record { after = d; returns = e; daemon = h; same = there }

  flush_others-Goes :
      (n : ℕ) (me : Bytes) (me_conf : ContextConf) (keys : List Bytes) (d : Daemon g lib host)
      → IsDaemon g lib host n d
      → lookup_context g d.config.contexts me ≡ some me_conf
      → Goes g lib host n me me_conf (flush_others g lib host me me_conf keys d)
  unfolding flush_others
  flush_others-Goes n me me_conf [] d h there = record {
    after = d;
    returns = refl;
    daemon = h;
    same = there;
  }
  flush_others-Goes n me me_conf (key ∷ keys) d h there =
      let x = flush_not_me-Goes n me key me_conf d h there in
      let y = flush_others-Goes n me me_conf keys x.after x.daemon x.same in
      record { after = y.after; returns = rw x.returns y.returns; daemon = y.daemon; same = y.same }

  -- The branch of `LogMessage` that flushes, for a daemon that goes on and a context of it with a
  -- ring, returns: that ring is empty behind it, the context is otherwise as it was, and the daemon
  -- goes on.
  pub flush_and_log-IsDaemon :
      (n : ℕ) (me : Bytes) (conf : ContextConf) (rb : RingBuffer) (pri : ℕ) (program line : Bytes)
      (d : Daemon g lib host)
      → IsDaemon g lib host n d
      → lookup_context g d.config.contexts me ≡ some conf
      → conf.rb ≡ some rb
      → (d' : Daemon g lib host) × (flush_and_log g lib host me conf rb pri program line d
          ≡ done d')
        × IsDaemon g lib host n d'
        × (after : RingBuffer) × (lookup_context g d'.config.contexts me
            ≡ some (record conf { rb = some after }))
        × (after.is_empty ≡ true)
  unfolding flush_and_log
  flush_and_log-IsDaemon n me conf rb pri program line d h there has =
      let x = flush_others-Goes n me conf (context_keys g lib host d) d h there in
      let d₁ = x.after in
      let ok = x.daemon.valid.contexts_ok me conf x.same in
      let (t, s₂, e₂) = stamp-done g lib host fits d₁ in
      let pri_str = format_pri lib pri_size syslog_info in
      let start =
        flushing_for t pri_str conf.context_name []
          (format_pri lib pri_size pri ++ codes " message") in
      let (s₃, e₃) =
        output-done g lib host conf pri pmsyslogd start (record d₁ { sys = s₂ }) ok.named in
      let (s₄, cleared, e₄, em, h₄) =
        flush_ring-done g lib host n me conf rb (record d₁ { sys = s₃ })
          (record { valid = x.daemon.valid; size = x.daemon.size }) x.same has in
      let conf' = record conf { rb = some cleared } in
      let c = change_context g me conf' d₁.config in
      let same : c.outputs ≡ d₁.config.outputs = outputs-change_context g me conf' d₁.config in
      let named : AllNamed (length c.outputs) conf.rules = rw same ok.named in
      let (s₅, e₅) =
        output-done g lib host conf pri program line (record { config = c; sys = s₄ }) named in
      let (t', s₆, e₆) = stamp-done g lib host fits (record { config = c; sys = s₅ }) in
      let (s₇, e₇) =
        output-done g lib host conf pri pmsyslogd (done_flushing t' pri_str conf.context_name)
          (record { config = c; sys = s₆ }) named in
      (
        record { config = c; sys = s₇ },
        bind_done _ x.returns
            (bind_done _ e₂ (bind_done _ e₃ (bind_done _ e₄ (bind_done _ e₅ (bind_done _ e₆ e₇))))),
        record { valid = h₄.valid; size = h₄.size },
        cleared,
        lookup-change_context g me me conf' conf d₁.config x.same
            ∙ rw ((str_eq_iff me me).1 refl) refl,
        em,
      )
