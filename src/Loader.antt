-- ===== src/Loader.antt =====
-- module_loader.inc: the cache of modules and the resolution of imports.
pub mod Cache
pub mod Entry
use text.Mathlib.Text.{◌==◌ as str_eq, starts_with}
use runtime_system.Value.{TryCatch, Line, report_exception}
use runtime_system.Base.{
  ℕ, ◌+◌, ◌==◌, Bool, String, List, [], ◌∷◌, ◌++◌, Option, none, some, if◌then◌else◌,
}
use Prim.Native.String

-- `std::filesystem`, the files and V8's compiler. `canonical` is `none` where it throws.
pub record Files : Type 0 where
  pub canonical : String → Option String
  -- `path.parent_path() / specifier`
  pub beside : (path specifier : String) → String
  pub read_file_sync : String → Option String
  -- what `v8::ScriptCompiler::CompileModule` throws, if it does not compile the module
  pub compile_exception : (path source : String) → Option TryCatch

-- A compiled module is its number; `module_cache` is a list, read by its keys. `compiled` lists the
-- paths that were compiled, latest first, and `stderr` is what was written to `std::cerr`.
pub record RuntimeState : Type 0 where
  pub module_cache : List (String × ℕ)
  pub next_module : ℕ
  pub compiled : List String
  pub stderr : List Line

pub data Resolved : Type 0 where
  loaded : ℕ → RuntimeState → Resolved
  not_found : (message : String) → RuntimeState → Resolved
  not_compiled : RuntimeState → Resolved

-- `state->module_cache.count(path_key)` and `state->module_cache[path_key]`.
unfoldable pub cached : String → List (String × ℕ) → Option ℕ
cached k [] = none
cached k ((j, m) ∷ rest) = if str_eq j k then some m else cached k rest

-- `state->module_cache[path_key].Reset(isolate, module)`.
unfoldable pub cache : String → ℕ → List (String × ℕ) → List (String × ℕ)
cache k m [] = (k, m) ∷ []
cache k m ((j, n) ∷ rest) = if str_eq j k then (k, m) ∷ rest else (j, n) ∷ cache k m rest

-- The reverse lookup of the referrer's path; `""` if it is not in the cache.
unfoldable pub path_of : ℕ → List (String × ℕ) → String
path_of m [] = ""
path_of m ((j, n) ∷ rest) = if n == m then j else path_of m rest

module _ (files : Files) where
  -- The path that is made canonical.
  unfoldable pub target_path : (specifier : String) (referrer : ℕ) → RuntimeState → String
  unfolding path_of
  target_path specifier referrer s =
      if starts_with specifier "./"
      then files.beside (path_of referrer s.module_cache) specifier
      else specifier

  -- The part of `ResolveModuleCallback` behind the lookup in the cache.
  unfoldable pub load_uncached : (path_key : String) → RuntimeState → Resolved
  load_uncached path_key s = elim (files.read_file_sync path_key) [
    | none ↦ not_found (String.◌++◌ "Module not found: " path_key) s
    | some source ↦
        let s' = record s { compiled = path_key ∷ s.compiled } in
        elim (files.compile_exception path_key source) [
          | some t ↦ not_compiled (record s' { stderr = s.stderr ++ report_exception t })
          | none ↦ loaded s.next_module (record s' {
            module_cache = cache path_key s.next_module s.module_cache;
            next_module = s.next_module + 1;
          })
        ]
  ]

  -- `ResolveModuleCallback` behind the canonical path.
  unfoldable pub lookup_or_load : (path_key : String) → RuntimeState → Resolved
  lookup_or_load path_key s = elim (cached path_key s.module_cache) [
    | some m ↦ loaded m s
    | none ↦ load_uncached path_key s
  ]

  -- `ResolveModuleCallback`.
  unfoldable pub resolve_module : (specifier : String) (referrer : ℕ) → RuntimeState → Resolved
  resolve_module specifier referrer s = elim (files.canonical (target_path specifier referrer s)) [
    | none ↦ not_found (String.◌++◌ "Module not found: " specifier) s
    | some path_key ↦ lookup_or_load path_key s
  ]

-- The state that a resolution leaves to the next one.
abbrev pub state_of : Resolved → RuntimeState
state_of (loaded m s) = s
state_of (not_found e s) = s
state_of (not_compiled s) = s
