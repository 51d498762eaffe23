-- ===== src/Startup/Thread.antt =====
-- src/main.c: `CreateHeavyOperationThread` and `DestroyHeavyOperationThread`.
use pmlogdaemon.Base.{
  ℕ, ◌+◌, ◌-◌, ◌≡◌, inl, inr, refl, ap, ◌∙◌, Bool, true, false, arith, if◌then◌else◌, Bool-cases,
}

-- `HeavyOperationThread`: whether each of its pointers is set.
pub record HeavyOperationThread : Type 0 where
  pub thrd : Bool
  pub loop : Bool
  pub context : Bool

abbrev pub nothing_held : HeavyOperationThread
nothing_held = record { thrd = false; loop = false; context = false }

-- The calls of GLib on contexts, loops and threads. Only the making of a thread may fail.
pub record Threads (S : Type 0) : Type 0 where
  pub context_new : S → S
  pub loop_new : S → S
  pub thread_try_new : S → Bool × S
  pub loop_quit : S → S
  pub thread_join : S → S
  pub thread_unref : S → S
  pub loop_unref : S → S
  pub context_unref : S → S

module _ {S : Type 0} (k : Threads S) where
  unfoldable pub destroy_heavy_operation_thread :
      HeavyOperationThread → S → HeavyOperationThread × S
  destroy_heavy_operation_thread h s =
      let s₁ = if h.loop then k.loop_quit s else s in
      let s₂ = if h.thrd then k.thread_unref (k.thread_join s₁) else s₁ in
      let s₃ = if h.loop then k.loop_unref s₂ else s₂ in
      let s₄ = if h.context then k.context_unref s₃ else s₃ in (nothing_held, s₄)

  unfoldable pub create_heavy_operation_thread : S → Bool × HeavyOperationThread × S
  unfolding destroy_heavy_operation_thread
  create_heavy_operation_thread s =
      let (created, s') = k.thread_try_new (k.loop_new (k.context_new s)) in
      if created
      then (true, record { thrd = true; loop = true; context = true }, s')
      else (let (h, s'') =
            destroy_heavy_operation_thread (record { thrd = false; loop = true; context = true })
              s' in
          (false, h, s''))

-- How many contexts and loops the process holds, and how many references to a thread it has taken and
-- has given back.
pub record Held : Type 0 where
  pub contexts : ℕ
  pub loops : ℕ
  pub taken : ℕ
  pub given : ℕ

-- The documentation of the calls. `g_thread_join` consumes the reference that it waits with.
pub record ThreadLaws {S : Type 0} (k : Threads S) (held : S → Held) : Type 0 where
  pub context_new_held :
      (s : S) → held (k.context_new s) ≡ record (held s) { contexts = (held s).contexts + 1 }
  pub loop_new_held : (s : S) → held (k.loop_new s) ≡ record (held s) { loops = (held s).loops + 1 }
  pub thread_held :
      (s : S)
      → held (k.thread_try_new s).1 ≡ record (held s) {
        taken = if (k.thread_try_new s).0 then (held s).taken + 1 else (held s).taken;
      }
  pub quit_held : (s : S) → held (k.loop_quit s) ≡ held s
  pub join_held : (s : S) → held (k.thread_join s) ≡ record (held s) { given = (held s).given + 1 }
  pub thread_unref_held :
      (s : S) → held (k.thread_unref s) ≡ record (held s) { given = (held s).given + 1 }
  pub loop_unref_held :
      (s : S) → held (k.loop_unref s) ≡ record (held s) { loops = (held s).loops - 1 }
  pub context_unref_held :
      (s : S) → held (k.context_unref s) ≡ record (held s) { contexts = (held s).contexts - 1 }

module _ {S : Type 0} (k : Threads S) (held : S → Held) (laws : ThreadLaws k held) where
  back : (n : ℕ) → n + 1 - 1 ≡ n
  back n = omega arith

  twice : (n : ℕ) → n + 1 + 1 ≡ n + 2
  twice n = omega arith

  -- What is held once the calls that make the three have been made.
  made :
      (s : S) (created : Bool)
      → (k.thread_try_new (k.loop_new (k.context_new s))).0 ≡ created
      → held (k.thread_try_new (k.loop_new (k.context_new s))).1 ≡ record {
        contexts = (held s).contexts + 1;
        loops = (held s).loops + 1;
        taken = if created then (held s).taken + 1 else (held s).taken;
        given = (held s).given;
      }
  made s created e =
      laws.thread_held (k.loop_new (k.context_new s))
      ∙ rw e (
          ap (λ (v : Held). record v { taken = if created then v.taken + 1 else v.taken })
            (laws.loop_new_held (k.context_new s)
              ∙ ap (λ (v : Held). record v { loops = v.loops + 1 }) (laws.context_new_held s)))

  released :
      (s : S)
      → held (k.context_unref (k.loop_unref s))
        ≡ record (held s) { contexts = (held s).contexts - 1; loops = (held s).loops - 1 }
  released s =
      laws.context_unref_held (k.loop_unref s)
      ∙ ap (λ (v : Held). record v { contexts = v.contexts - 1 }) (laws.loop_unref_held s)

  -- The calls on the thread give a reference back twice.
  stopped :
      (s : S)
      → held (k.thread_unref (k.thread_join (k.loop_quit s)))
        ≡ record (held s) { given = (held s).given + 2 }
  stopped s =
      laws.thread_unref_held (k.thread_join (k.loop_quit s))
      ∙ ap (λ (v : Held). record v { given = v.given + 1 })
          (laws.join_held (k.loop_quit s)
            ∙ ap (λ (v : Held). record v { given = v.given + 1 }) (laws.quit_held s))
      ∙ rw (twice (held s).given) refl

  -- Where the calls of GLib do as documented: a heavy operation thread that could not be made leaves
  -- what was held, and to destroy it changes nothing; one that could be made holds a context, a loop
  -- and one reference to its thread, and when it is destroyed it gives the context and the loop back,
  -- and the reference to the thread twice.
  pub create_heavy_operation_thread-Held :
      (s : S)
      → let (created, h, s₁) = create_heavy_operation_thread k s in
        (held s₁ ≡ (
          if created
          then record {
            contexts = (held s).contexts + 1;
            loops = (held s).loops + 1;
            taken = (held s).taken + 1;
            given = (held s).given;
          }
          else held s))
        × (h.thrd ≡ created)
        × (held (destroy_heavy_operation_thread k h s₁).1 ≡ (
            if created
            then record (held s) { taken = (held s).taken + 1; given = (held s).given + 2 }
            else held s))
  unfolding create_heavy_operation_thread destroy_heavy_operation_thread
  create_heavy_operation_thread-Held s =
      let s₁ = (k.thread_try_new (k.loop_new (k.context_new s))).1 in
      elim (Bool-cases (k.thread_try_new (k.loop_new (k.context_new s))).0) [
        | inl yes_made ↦
            let e = made s true yes_made in
            let all : held
                  (k.context_unref (k.loop_unref (k.thread_unref (k.thread_join (k.loop_quit s₁)))))
                ≡ record (held s) { taken = (held s).taken + 1; given = (held s).given + 2 } =
              released (k.thread_unref (k.thread_join (k.loop_quit s₁)))
              ∙ ap (λ (v : Held). record v { contexts = v.contexts - 1; loops = v.loops - 1 })
                  (stopped s₁ ∙ ap (λ (v : Held). record v { given = v.given + 2 }) e)
              ∙ rw (back (held s).contexts, back (held s).loops) refl in
            rw yes_made (e, refl, all)
        | inr not_made ↦
            let e = made s false not_made in
            let all : held (k.context_unref (k.loop_unref (k.loop_quit s₁))) ≡ held s =
              released (k.loop_quit s₁)
              ∙ ap (λ (v : Held). record v { contexts = v.contexts - 1; loops = v.loops - 1 })
                  (laws.quit_held s₁ ∙ e)
              ∙ rw (back (held s).contexts, back (held s).loops) refl in
            rw not_made (all, refl, all)
      ]
