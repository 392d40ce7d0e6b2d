-- ===== src/Loader/Entry.antt =====
-- `LoadAndRunModules` of module_loader.inc.
pub mod Linked
use runtime_system.Base.{ℕ, ◌+◌, String, List, [], ◌∷◌, ◌++◌, Option, none, some}
use Prim.Native.String
use runtime_system.Value.{TryCatch, Line, plain, report_exception}
use runtime_system.State.{Script}
use runtime_system.Loader.{Files, RuntimeState, Resolved, cache, resolve_module}

-- How `v8::Module::InstantiateModule` ends. If it fails, what the `TryCatch` of `main` holds: nothing
-- where the callback failed, as an exception that is thrown in there is taken by the callback's own
-- `TryCatch`, which does not throw it again.
pub data Instantiated : Type 0 where
  linked : RuntimeState → Instantiated
  failed : Option TryCatch → RuntimeState → Instantiated

-- V8's part: instantiation, which calls the given callback for the imports, and what the evaluation of
-- a module does.
pub record Engine : Type 0 where
  pub instantiate :
      (resolve : String → ℕ → RuntimeState → Resolved) (m : ℕ) → RuntimeState → Instantiated
  pub script_of : (m : ℕ) → Script

pub data Entry : Type 0 where
  ready : (m : ℕ) → RuntimeState → Entry
  fatal : List Line → Entry

pub data Started : Type 0 where
  evaluates : Script → RuntimeState → Started
  exits : List Line → Started

-- `ReportException` of a `TryCatch` that may hold nothing: the text is then a null pointer and there is
-- no message, and writing a null pointer to `std::cerr` writes nothing and stops later output.
unfoldable pub report_caught : Option TryCatch → List Line
report_caught none = []
report_caught (some t) = report_exception t

module _ (files : Files) where
  -- The lambda `load_module`; `fatal` is `exit(1)`, with all that was written to `std::cerr`.
  unfoldable pub load_module : (path : String) → RuntimeState → Entry
  load_module path s = elim (files.canonical path) [
    | none ↦
        fatal
          (s.stderr ++ plain (String.◌++◌ "Fatal: Failed to find canonical path for " path) ∷ [])
    | some abs_path ↦ elim (files.read_file_sync abs_path) [
      | none ↦ fatal (s.stderr ++ plain (String.◌++◌ "Fatal: Failed to read " path) ∷ [])
      | some code ↦ elim (files.compile_exception abs_path code) [
        | some t ↦ fatal (s.stderr ++ report_exception t)
        | none ↦ ready s.next_module (record s {
          module_cache = cache abs_path s.next_module s.module_cache;
          next_module = s.next_module + 1;
          compiled = abs_path ∷ s.compiled;
        })
      ]
    ]
  ]

  -- `LoadAndRunModules`, up to the evaluation of the entry module.
  unfoldable pub load_and_run_modules : Engine → (path : String) → RuntimeState → Started
  unfolding load_module report_caught
  load_and_run_modules e path s = elim (load_module path s) [
    | fatal ls ↦ exits ls
    | ready m s' ↦ elim (e.instantiate (resolve_module files) m s') [
      | failed t s'' ↦ exits (s''.stderr ++ report_caught t)
      | linked s'' ↦ evaluates (e.script_of m) s''
    ]
  ]
