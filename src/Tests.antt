-- ===== src/Tests.antt =====
-- Sample states and answers of the libraries, and the theorems on them.
mod Store
mod Files
mod Scheduling
mod Sessions
mod Requests
mod Modules
mod Windows
mod Datagrams
mod Process
mod Contexts
use runtime_system.Base.{ℕ, ℤ, pos, [], ◌∷◌, ◌++◌, Option, none, some, update, false}
use runtime_system.Handles
use runtime_system.Value.{bigint, scalar}
use runtime_system.State.{
  World, Fiber, running, suspended, Script, finish, Context, BaseHandle, Class, net, NetHandle,
}
use runtime_system.External.{External, other_error}

-- Libraries that refuse nothing.
abbrev pub answers : External
answers = record {
  strerror = λ r. "error";
  submit = λ t op. pos 0;
  socket = λ t. t;
  tcp_bind = λ t host port. pos 0;
  listen = λ t s. pos 0;
  udp_bind = λ t host port. pos 0;
  fileno = λ t s. some (pos s);
  accept = λ t s. some t;
  ssl_call = λ t ssl l. pos 1;
  ssl_get_error = λ t ssl r. other_error;
  ssl_ctx_new = λ t. some t;
  parse_key = λ bytes. some 1;
  parse_cert = λ bytes. some 2;
  utf8_value = λ s. [];
  new_from_utf8 = λ bytes. some "";
  evaluate_is_empty = λ t. false;
}

-- The main fiber at 0, which last saved `c`.
abbrev pub main_in : Context → Fiber
main_in c = record { status = running; func = finish; resume_value = none; context = some c }

-- Another fiber, which is in `c`.
abbrev pub waiting_in : Context → Fiber
waiting_in c = record { status = suspended; func = finish; resume_value = none; context = some c }

-- A runtime that has started and done nothing yet, whose main fiber last saved `c`.
abbrev pub started : Context → World
started c = record {
  fibers = update (λ f. none) 0 (some (main_in c));
  next_fiber = 1;
  current_fiber = 0;
  main_fiber = 0;
  handles = record { store = []; next_id = 1 };
  objects = λ o. none;
  next_object = 0;
  uses = λ o. 0;
  contexts = λ c. none;
  next_context = 0;
  resumable_fibers = [];
  requests = [];
  closing_handles = [];
  tick = 0;
  freed = [];
  closed_files = [];
  next_ssl = 0;
  stdout = [];
  stderr = [];
}

-- An object at 0 whose id is 1.
abbrev pub with_handle : Class → World → World
with_handle c w = record w {
  handles = record { store = (1, 0) ∷ []; next_id = 2 };
  objects = update w.objects 0 (some (record { id = 1; class = c }));
  next_object = 1;
  uses = update w.uses 0 1;
}
