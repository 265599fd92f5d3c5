-- ===== src/Examples/Runtimes.antt =====
-- A runtime with a small guest: its init starts a timer, its events write to the log.
use esp_container.Common.{
  ℕ, ◌+◌, ◌*◌, ◌≤◌, ◌≡◌, refl, true, false, List, [], ◌∷◌, none, some, arith, replicate,
}
use esp_container.Runtime.Types.{
  Engine, Host, Limits, running, Timer, GuestRun, ends, calls, GuestFunction, init_function,
  event_function, stop_function, call_timer_start, call_log, mapped, Allocation,
}
use esp_container.Runtime.Timers.{rearmed}
use esp_container.Runtime.Entry.{invoke}
use esp_container.Runtime.Table.{handle_limit}
use esp_container.Runtime.Rearm.{IsRearmed, rearmed-IsRearmed}
use esp_container.Runtime.Invoke.{Invoked, invoke-Invoked}
use esp_container.Runtime.Fresh.{
  fresh_host, zero_timer, fresh_host-IsReady, zeros-IsIssued, zeros-IsApart, zeros-AllApart,
  zeros-IsIdle,
}
use esp_container.Runtime.Sequence.{
  OwnerCall, inits, posts, stops, takes_log, asks_deadline, polls_timer, IsReady, IsOwned,
  run_owner_call, run_owner_calls, run_owner_call-IsOwned, run_owner_calls-IsReady,
}

-- The init starts a timer of 5 ms with a period of 10 ms; an event logs `hi`.
abbrev pub guest : GuestFunction → GuestRun
guest init_function = calls true (call_timer_start 5 10) (λ r. ends true none 0)
guest event_function = calls true (call_log 2 (mapped (b'h' ∷ b'i' ∷ []))) (λ r. ends true none 7)
guest stop_function = ends true none 0

-- The world is the time in milliseconds; a reading of the clock takes as many as `pace` says.
abbrev pub paced : ℕ → Allocation → Engine ℕ
paced pace place = record {
  timer_get_time = λ w. (some (w * 1000), w + pace);
  call_wasm = λ function budget arguments w. (guest function, w);
  module_malloc = λ size w. (place, w);
  write_app = λ offset bytes w. w;
  module_free = λ offset w. w;
}

abbrev pub in_heap : Allocation
in_heap = record { offset = 16; has_address = true }

abbrev pub quick : Engine ℕ
quick = paced 1 in_heap

-- Every entry of more than one reading passes its deadline.
abbrev pub slow : Engine ℕ
slow = paced 100 in_heap

abbrev pub full : Engine ℕ
full = paced 1 (record { offset = 0; has_address = false })

abbrev pub limits : Limits
limits = record {
  max_wasm_bytes = 1000;
  max_memory_pages = 1;
  stack_size_bytes = 1024;
  heap_size_bytes = 1024;
  max_event_bytes = 64;
  allowed_capabilities = 7;
  max_log_bytes = 16;
  max_timers = 2;
  init_instruction_budget = 100;
  event_instruction_budget = 100;
  stop_instruction_budget = 100;
  max_entry_duration_ms = 50;
}

-- It is due at 20 ms.
abbrev pub set_timer_1 : Timer
set_timer_1 = record { handle = 1; deadline_ms = 20; period_ms = 10; active = true }

abbrev pub opened : Host
opened = fresh_host limits (replicate 16 0) 1

-- A runtime that runs, with one timer.
abbrev pub on : Host
on = record opened {
  runtime = record (opened.runtime) {
    state = running;
    timers = set_timer_1 ∷ replicate 7 zero_timer;
  };
  next_timer_handle = 2;
}

no_true {ℓ} : {A : Type ℓ} → false ≡ true → A
no_true e = absurd cc

pub opened-IsReady : IsReady limits opened
opened-IsReady = fresh_host-IsReady limits (replicate 16 0) 1 (omega arith)

pub on-IsReady : IsReady limits on
unfolding handle_limit
on-IsReady = record {
  settled = record {
    host = record {
      limits = refl;
      table = record {
        size = refl;
        issued = (λ a. (omega arith, omega arith), zeros-IsIssued 2 7);
        apart = (zeros-IsApart set_timer_1 7, zeros-AllApart 7);
      };
      beyond = zeros-IsIdle 1 7;
      next_bounded = omega arith;
      log_fits = omega arith;
    };
    guest_out = refl;
    quiet = λ e. no_true e;
    final = λ e. no_true e;
    begun = λ e. absurd cc;
  };
  free = refl;
}

abbrev pub day : List OwnerCall
day = inits ∷ asks_deadline ∷ posts (1 ∷ 2 ∷ []) ∷ polls_timer ∷ takes_log 16 ∷ stops ∷ []

invoke-Invoked_example :
    Invoked quick init_function 100 [] opened 0
      (invoke quick init_function 100 [] opened 0).outcome
      (invoke quick init_function 100 [] opened 0).host
invoke-Invoked_example = invoke-Invoked quick init_function 100 [] opened 0

run_owner_calls-IsReady_example :
    IsReady limits (run_owner_calls quick day opened 0).0
    × (handle_limit 1 ≤ handle_limit (run_owner_calls quick day opened 0).0.next_timer_handle)
run_owner_calls-IsReady_example = run_owner_calls-IsReady quick limits day opened 0 opened-IsReady

run_owner_call-IsOwned_example : IsOwned limits on (run_owner_call quick polls_timer on 30).1
run_owner_call-IsOwned_example = run_owner_call-IsOwned quick limits polls_timer on 30 on-IsReady

rearmed-IsRearmed_example : IsRearmed 47 set_timer_1 (rearmed 47 set_timer_1)
rearmed-IsRearmed_example =
    rearmed-IsRearmed 47 set_timer_1 (omega arith) (omega arith) (omega arith)
