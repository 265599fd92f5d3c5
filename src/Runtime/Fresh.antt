-- ===== src/Runtime/Fresh.antt =====
-- The runtime that `econtainer_runtime_open` allocates, before any call.
use esp_container.Common.{
  ℕ, zero, suc, ◌≤◌, ◌≡◌, refl, true, false, List, replicate, drop, All, arith,
}
use esp_container.Runtime.Types.{Host, Limits, Timer, loaded, timer_capacity, u64_max}
use esp_container.Runtime.Table.{handle_limit, IsIdle, IsIssued, IsApart, AllApart}
use esp_container.Runtime.Sequence.{IsReady}

abbrev pub zero_timer : Timer
zero_timer = record { handle = 0; deadline_ms = 0; period_ms = 0; active = false }

-- `calloc`, the limits and the state. The log buffer holds what `malloc` left there.
abbrev pub fresh_host : Limits → List ℕ → ℕ → Host
fresh_host limits log next_timer_handle = record {
  runtime = record {
    limits = limits;
    state = loaded;
    pending_log = log;
    pending_log_size = 0;
    call_active = false;
    guest_active = false;
    entry_expired = false;
    entry_deadline_ms = 0;
    stopping = false;
    timers = replicate timer_capacity zero_timer;
  };
  next_timer_handle = next_timer_handle;
}

not_set {ℓ} : {A : Type ℓ} → false ≡ true → A
not_set e = absurd cc

pub zeros-IsIssued : (limit n : ℕ) → All (IsIssued limit) (replicate n zero_timer)
zeros-IsIssued limit zero = tt
zeros-IsIssued limit (suc n) = (λ a. not_set a, zeros-IsIssued limit n)

pub zeros-IsApart : (t : Timer) (n : ℕ) → All (IsApart t) (replicate n zero_timer)
zeros-IsApart t zero = tt
zeros-IsApart t (suc n) = (λ a b. not_set b, zeros-IsApart t n)

pub zeros-AllApart : (n : ℕ) → AllApart (replicate n zero_timer)
zeros-AllApart zero = tt
zeros-AllApart (suc n) = (zeros-IsApart zero_timer n, zeros-AllApart n)

pub zeros-IsIdle : (m n : ℕ) → All IsIdle (drop m (replicate n zero_timer))
zeros-IsIdle zero zero = tt
zeros-IsIdle zero (suc n) = (refl, zeros-IsIdle zero n)
zeros-IsIdle (suc m) zero = tt
zeros-IsIdle (suc m) (suc n) = zeros-IsIdle m n

pub fresh_host-IsReady :
    (l : Limits) (log : List ℕ) (n : ℕ) → n ≤ u64_max → IsReady l (fresh_host l log n)
fresh_host-IsReady l log n b = record {
  settled = record {
    host = record {
      limits = refl;
      table = record {
        size = refl;
        issued = zeros-IsIssued (handle_limit n) 8;
        apart = zeros-AllApart 8;
      };
      beyond = zeros-IsIdle l.max_timers 8;
      next_bounded = b;
      log_fits = omega arith;
    };
    guest_out = refl;
    quiet = λ e. not_set e;
    final = λ e. not_set e;
    begun = λ e. absurd cc;
  };
  free = refl;
}
