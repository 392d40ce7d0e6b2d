-- ===== src/Tests/Modules.antt =====
-- Modules.
use runtime_system.State.{finish}
use runtime_system.Loader.Entry.{Engine, linked, load_module, load_and_run_modules}
use runtime_system.Loader.Entry.Linked.{Links, load_and_run_modules-resolve_module}
use runtime_system.Base.{ℕ, arith, ◌≡◌, refl, [], ◌∷◌, some, none}
use runtime_system.Loader.{
  Files, RuntimeState, loaded, resolve_module, target_path, load_uncached, lookup_or_load, cached,
  cache, state_of,
}
use runtime_system.Loader.Cache.{resolve_all, resolve_module_again}

-- Files whose paths are canonical as they are.
abbrev pub files : Files
files = record {
  canonical = λ p. some p;
  beside = λ p s. s;
  read_file_sync = λ p. some "source";
  compile_exception = λ p s. none;
}

abbrev empty_cache : RuntimeState
empty_cache = record { module_cache = []; next_module = 0; compiled = []; stderr = [] }

abbrev after_a : RuntimeState
after_a = record {
  module_cache = ("/a", 0) ∷ [];
  next_module = 1;
  compiled = "/a" ∷ [];
  stderr = [];
}

resolve_module_again_example :
    resolve_module files "/a" 3 (resolve_all files (("/b", 0) ∷ []) after_a)
    ≡ loaded 0 (resolve_all files (("/b", 0) ∷ []) after_a)
unfolding target_path resolve_module lookup_or_load load_uncached cached cache
resolve_module_again_example =
    resolve_module_again files "/a" 0 (("/b", 0) ∷ []) "/a" 3 "/a" 0 empty_cache after_a refl refl
      refl

-- An entry module that imports one other.
abbrev imports_b : Engine
imports_b = record {
  instantiate = λ resolve m s. linked (state_of (resolve "/b" m s));
  script_of = λ m. finish;
}

imports_b-Links : Links files imports_b
unfolding Links resolve_all
imports_b-Links m s s' e = (("/b", m) ∷ [], ground (arith, e))

-- The modules once the entry is linked.
abbrev after_entry : RuntimeState
after_entry = record {
  module_cache = ("/a", 0) ∷ ("/b", 1) ∷ [];
  next_module = 2;
  compiled = "/b" ∷ "/a" ∷ [];
  stderr = [];
}

load_and_run_modules-resolve_module_example :
    (m : ℕ) × (finish ≡ imports_b.script_of m)
    × (resolve_module files "/a" 1 after_entry ≡ loaded m after_entry)
unfolding target_path resolve_module lookup_or_load load_uncached cached cache load_and_run_modules
    load_module
load_and_run_modules-resolve_module_example =
    load_and_run_modules-resolve_module files imports_b "/a" "/a" empty_cache after_entry finish
      "/a" 1 imports_b-Links refl refl refl
