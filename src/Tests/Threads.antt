-- ===== src/Tests/Threads.antt =====
-- Runs of the making of the heavy operation thread in src/main.c.
use pmlogdaemon.Base.{◌+◌, ◌-◌, ◌≡◌, refl, true}
use pmlogdaemon.Startup.Thread.{
  Held, Threads, ThreadLaws, create_heavy_operation_thread, destroy_heavy_operation_thread,
  create_heavy_operation_thread-Held,
}

-- A process in which a thread can be made.
abbrev threads : Threads Held
threads = record {
  context_new = λ v. record v { contexts = v.contexts + 1 };
  loop_new = λ v. record v { loops = v.loops + 1 };
  thread_try_new = λ v. (true, record v { taken = v.taken + 1 });
  loop_quit = λ v. v;
  thread_join = λ v. record v { given = v.given + 1 };
  thread_unref = λ v. record v { given = v.given + 1 };
  loop_unref = λ v. record v { loops = v.loops - 1 };
  context_unref = λ v. record v { contexts = v.contexts - 1 };
}

threads-ThreadLaws : ThreadLaws threads (λ v. v)
threads-ThreadLaws = record {
  context_new_held = λ v. refl;
  loop_new_held = λ v. refl;
  thread_held = λ v. refl;
  quit_held = λ v. refl;
  join_held = λ v. refl;
  thread_unref_held = λ v. refl;
  loop_unref_held = λ v. refl;
  context_unref_held = λ v. refl;
}

-- The main loop alone.
abbrev main_loop : Held
main_loop = record { contexts = 1; loops = 1; taken = 0; given = 0 }

created_test : (create_heavy_operation_thread threads main_loop).0 ≡ true
unfolding create_heavy_operation_thread
created_test = refl

create_heavy_operation_thread-Held_example :
    ((create_heavy_operation_thread threads main_loop).2
      ≡ record { contexts = 2; loops = 2; taken = 1; given = 0 })
    × ((create_heavy_operation_thread threads main_loop).1.thrd ≡ true)
    × ((destroy_heavy_operation_thread threads
          (create_heavy_operation_thread threads main_loop).1
          (create_heavy_operation_thread threads main_loop).2).1
        ≡ record { contexts = 1; loops = 1; taken = 1; given = 2 })
unfolding create_heavy_operation_thread
create_heavy_operation_thread-Held_example =
    create_heavy_operation_thread-Held threads (λ v. v) threads-ThreadLaws main_loop
