-- ===== src/System/Reachable.antt =====
-- The steps of the two threads, one at a time, and what stays true of the daemon whatever their order.
use pmlogdaemon.Base.{
  ℕ, suc, ◌≤◌, ◌≡◌, ◌∙◌, inl, inr, refl, sym, ap, subst, Bool, true, false, ◌&&◌, Option, some,
  List, [], ◌∷◌, arith, Bytes, length, if◌then◌else◌, Bool-cases,
}
use pmlogdaemon.Base.Int.{ℤ, pos, suc_ℤ, pred_ℤ, int32, int32_pos, eqb_ℤ}
use pmlogdaemon.Base.Outcome.{done}
use pmlogdaemon.Conf.{LogFile, ContextConf}
use pmlogdaemon.Disk.{Disk}
use pmlogdaemon.Rotation.{Task}
use pmlogdaemon.Rotation.Cleanup.{Reports}
use pmlogdaemon.Route.{output_message}
use pmlogdaemon.System.{
  System, log_files, force_rotate, force_rotate_ls, add_report, run_task, subscribe_on_rotations_ls,
  sub_cancel_func,
}
use pmlogdaemon.System.Kept.{AllTasks}
use pmlogdaemon.System.Stays.{
  Stays, add_report-Stays, output_message-Stays, run_task-Stays, force_rotate-Stays,
}

none_counted : (c : ℤ) (n : ℕ) → c ≡ pos n → eqb_ℤ c (pos 0) ≡ true → n ≡ 0
none_counted c n e z = ground (arith, e, z)

module _ (D : Disk) (r : Reports D.State) where
  -- The daemon, and how many subscriptions the service bus holds under the key of rotations.
  pub record Service : Type 0 where
    pub system : System D r
    pub subscribers : ℕ

  -- A message to the outputs; the report of a message; the rotation that a message commands; a call of the service bus, which
  -- holds a subscription from where it takes it to where it cancels it; and the oldest task.
  pub data Step (s : Service) : Service → Type 0 where
    output_step :
        (conf : ContextConf) (pri : ℕ) (program : Option Bytes) (msg : Bytes) (sys' : System D r)
        → output_message
            (log_files D r)
            (length s.system.files)
            (some conf)
            pri
            program
            msg
            s.system
          ≡ done sys'
        → Step s (record s { system = sys' })
    report_step :
        (pri : ℕ) (program msg : Bytes)
        → Step s (record s { system = (add_report D r pri program msg s.system) })
    rotate_command : Step s (record s { system = (force_rotate D r true s.system).1 })
    rotate_call : Step s (record s { system = (force_rotate_ls D r s.system).1 })
    subscribe :
        (added : Bool)
        → Step s (record {
          system = (subscribe_on_rotations_ls D r added s.system).1;
          subscribers =
              if eqb_ℤ s.system.world.subscriptions (pos 0) && added
              then suc s.subscribers
              else s.subscribers;
        })
    cancel :
        (n : ℕ)
        → s.subscribers ≡ suc n
        → Step s (record { system = sub_cancel_func D r s.system; subscribers = n })
    run :
        (t : Task) (rest : List Task)
        → s.system.world.tasks ≡ t ∷ rest
        → Step s (record s {
          system =
              run_task D r t (record s.system { world = record s.system.world { tasks = rest } });
        })

  pub data Steps : Service → Service → Type 0 where
    stay : {s : Service} → Steps s s
    step : {s t u : Service} → Step s t → Steps t u → Steps s u

  -- At most one subscriber, which the daemon has counted; and tasks that compress only the file just
  -- rotated of one of the outputs.
  pub record IsService (files : List LogFile) (s : Service) : Type 0 where
    pub outputs : s.system.files ≡ files
    pub count : s.system.world.subscriptions ≡ pos s.subscribers
    pub one : s.subscribers ≤ 1
    pub tasks : AllTasks files s.system.world.tasks

  Stays-IsService :
      (files : List LogFile) (s : Service) (sys' : System D r)
      → Stays D r files s.system sys'
      → IsService files s
      → IsService files (record s { system = sys' })
  Stays-IsService files s sys' h i = record {
    outputs = h.outputs ∙ i.outputs;
    count = h.kept.subscriptions ∙ i.count;
    one = i.one;
    tasks = h.kept.tasks i.tasks;
  }

  module _ (files : List LogFile) where
    subscribe-IsService :
        (added : Bool) (s : Service)
        → IsService files s
        → IsService files (record {
          system = (subscribe_on_rotations_ls D r added s.system).1;
          subscribers =
              if eqb_ℤ s.system.world.subscriptions (pos 0) && added
              then suc s.subscribers
              else s.subscribers;
        })
    unfolding subscribe_on_rotations_ls
    subscribe-IsService added s i = elim (Bool-cases (eqb_ℤ s.system.world.subscriptions (pos 0))) [
      | inr taken ↦
          rw (subscribe_on_rotations_ls, taken)
            (record { outputs = i.outputs; count = i.count; one = i.one; tasks = i.tasks })
      | inl free ↦
          let nobody : s.subscribers ≡ 0 =
            none_counted s.system.world.subscriptions s.subscribers i.count free in
          elim (Bool-cases added) [
            | inr refused ↦
                rw (subscribe_on_rotations_ls, free, refused)
                  (record { outputs = i.outputs; count = i.count; one = i.one; tasks = i.tasks })
            | inl agreed ↦
                rw (subscribe_on_rotations_ls, free, agreed)
                  (record {
                    outputs = i.outputs;
                    count =
                        ap (λ c. int32 (suc_ℤ c)) (i.count ∙ ap pos nobody)
                        ∙ int32_pos 1 (omega arith)
                        ∙ ap (λ n. pos (suc n)) (sym nobody);
                    one = omega (arith, nobody);
                    tasks = i.tasks;
                  })
          ]
    ]

    cancel-IsService :
        (n : ℕ) (s : Service)
        → s.subscribers ≡ suc n
        → IsService files s
        → IsService files (record { system = sub_cancel_func D r s.system; subscribers = n })
    unfolding sub_cancel_func
    cancel-IsService n s e i = record {
      outputs = i.outputs;
      count =
          ap (λ c. int32 (pred_ℤ c)) (i.count ∙ ap pos e) ∙ int32_pos n (omega (arith, i.one, e));
      one = omega (arith, i.one, e);
      tasks = i.tasks;
    }

    pub Step-IsService : (s s' : Service) → Step s s' → IsService files s → IsService files s'
    Step-IsService s s' (output_step conf pri program msg sys' e) i =
        Stays-IsService files s sys'
          (output_message-Stays D r files (length s.system.files) conf pri program msg s.system sys'
            i.outputs e)
          i
    Step-IsService s s' (report_step pri program msg) i =
        Stays-IsService files s _ (add_report-Stays D r files pri program msg s.system) i
    Step-IsService s s' rotate_command i =
        Stays-IsService files s _ (force_rotate-Stays D r files true s.system i.outputs) i
    Step-IsService s s' rotate_call i =
        Stays-IsService files s _
          (unfold force_rotate_ls in force_rotate-Stays D r files false s.system i.outputs) i
    Step-IsService s s' (subscribe added) i = subscribe-IsService added s i
    Step-IsService s s' (cancel n e) i = cancel-IsService n s e i
    Step-IsService s s' (run t rest e) i =
        let sys : System D r = record s.system { world = record s.system.world { tasks = rest } } in
        Stays-IsService files (record s { system = sys }) _ (run_task-Stays D r files t sys)
          (record {
            outputs = i.outputs;
            count = i.count;
            one = i.one;
            tasks = (subst (AllTasks files) e i.tasks).1;
          })

    pub Steps-IsService : (s s' : Service) → Steps s s' → IsService files s → IsService files s'
    Steps-IsService s s' stay i = i
    Steps-IsService s s' (step {t = t} x xs) i = Steps-IsService t s' xs (Step-IsService s t x i)

  -- No subscriber and no task.
  pub IsService-start :
      (s : Service)
      → s.system.world.subscriptions ≡ pos 0
      → s.subscribers ≡ 0
      → s.system.world.tasks ≡ []
      → IsService s.system.files s
  IsService-start s alone nobody idle = record {
    outputs = refl;
    count = alone ∙ ap pos (sym nobody);
    one = omega arith;
    tasks = subst (AllTasks s.system.files) (sym idle) tt;
  }

  -- From a start with no subscriber and no task, whatever the order of the steps: the daemon has
  -- counted its subscribers, there is one at most, and no task compresses another file than the one
  -- just rotated of an output.
  pub reachable-IsService :
      (s s' : Service)
      → s.system.world.subscriptions ≡ pos 0
      → s.subscribers ≡ 0
      → s.system.world.tasks ≡ []
      → Steps s s'
      → IsService s.system.files s'
  reachable-IsService s s' alone nobody idle steps =
      Steps-IsService s.system.files s s' steps (IsService-start s alone nobody idle)
