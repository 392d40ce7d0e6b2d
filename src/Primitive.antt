-- ===== src/Primitive.antt =====
-- How the primitives of the runtime run: up to a reply, or up to a `Fiber::yield()`.
use runtime_system.Base.{ℕ, String, List, [], ◌∷◌, ◌++◌, Option, none, some}
use runtime_system.Value.{Value, Reply, returned, thrown, error, undefined}
use runtime_system.State.{World, TlsLoop, Cont, Waits, on_context, Operation, Kind}
use runtime_system.State.Memory.{new_context, retain_all}
use runtime_system.External.{External, submit}

-- `replies`: it returns to the script. `blocks`: it is in `Fiber::yield()`, with the code that
-- follows. `resumes`: it is in `Fiber::resume` of a fiber. `spins`: it is at the head of a loop of
-- primitives_tls.cpp, for one more round. `aborts`: the process ends in a failed
-- check of V8 or in a use of an invalid pointer.
pub data Outcome : Type 0 where
  replies : Reply → World → Outcome
  blocks : Cont → World → Outcome
  resumes : (fiber : ℕ) → World → Outcome
  spins : (ssl : ℕ) → TlsLoop → World → Outcome
  aborts : Outcome

-- `Throw(isolate, message); return;`
abbrev pub throw : String → World → Outcome
throw m w = replies (thrown m) w

abbrev pub give : Value → World → Outcome
give v w = replies (returned v) w

-- The function `print` of the global object (main.cpp): its first argument is written to `std::cout`.
unfoldable pub print : (args : List String) → World → Outcome
print [] w = give undefined w
print (str ∷ rest) w = give undefined (record w { stdout = w.stdout ++ str ∷ [] })

-- `new …Context(…); uv_…(…, callback); Fiber::yield();` with what follows: the result of the call
-- is not looked at. The objects in `held` are kept alive by locals.
unfoldable pub start : External → Kind → Operation → (Waits → Cont) → List ℕ → World → Outcome
unfolding new_context submit retain_all
start x k op then held w =
    let (c, w') = new_context k w in
    blocks (then (record { target = on_context c; held = held }))
      (retain_all held (submit x c op w').1)

-- `resume_value.Get(isolate)` of the current fiber: `none` if there is no such fiber or the handle
-- is empty.
unfoldable pub resume_value : World → Option Value
resume_value w = elim (w.fibers w.current_fiber) [ none ↦ none | some f ↦ f.resume_value ]

-- `if (result->IsNativeError()) { ThrowException(result); return; }`, then the return of `on_ok`.
abbrev pub reply_of : (Value → Value) → Value → Reply
reply_of on_ok (error m) = thrown m
reply_of on_ok v = returned (on_ok v)

-- The code behind `Fiber::yield()` in most primitives. An empty handle is dereferenced.
unfoldable pub conclude : (Value → Value) → World → Outcome
unfolding resume_value
conclude on_ok w = elim (resume_value w) [ none ↦ aborts | some v ↦ replies (reply_of on_ok v) w ]
