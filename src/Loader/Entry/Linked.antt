-- ===== src/Loader/Entry/Linked.antt =====
-- The entry module in the cache of modules.
use text.Mathlib.TextEquality.{eq_iff}
use runtime_system.Value.{TryCatch, Line}
use runtime_system.Base.{ℕ, ◌⊎◌, inl, inr, ◌≡◌, refl, sym, subst, String, List, Option, some, arith}
use runtime_system.State.{Script}
use runtime_system.Loader.{
  Files, RuntimeState, loaded, cached, resolve_module, lookup_or_load, target_path,
}
use runtime_system.Loader.Cache.{cached-cache, resolve_all, resolve_all-cached}
use runtime_system.Loader.Entry.{
  Engine, Entry, Instantiated, fatal, failed, ready, linked, evaluates, load_module,
  load_and_run_modules,
}

-- `InstantiateModule` changes the state by calls of the callback alone.
unfoldable pub Links : Files → Engine → Type 0
Links files e =
    (m : ℕ) (s s' : RuntimeState)
    → e.instantiate (resolve_module files) m s ≡ linked s'
    → (imports : List (String × ℕ)) × (s' ≡ resolve_all files imports s)

pub Entry-cases :
    (r : Entry)
    → ((m : ℕ) × (s : RuntimeState) × (r ≡ ready m s)) ⊎ ((ls : List Line) × (r ≡ fatal ls))
Entry-cases (ready m s) = inl (m, s, refl)
Entry-cases (fatal ls) = inr (ls, refl)

pub Instantiated-cases :
    (r : Instantiated)
    → ((s : RuntimeState) × (r ≡ linked s))
      ⊎ ((t : Option TryCatch) × (s : RuntimeState) × (r ≡ failed t s))
Instantiated-cases (linked s) = inl (s, refl)
Instantiated-cases (failed t s) = inr (t, s, refl)

module _ (files : Files) where
  load_module-cached :
      (path k : String) (m : ℕ) (s s' : RuntimeState)
      → files.canonical path ≡ some k
      → load_module files path s ≡ ready m s'
      → cached k s'.module_cache ≡ some m
  unfolding load_module
  load_module-cached path k m s s' c e =
      ground (arith, eq_iff k k, cached-cache k k s.next_module s.module_cache)

  lookup_or_load-present :
      (k : String) (m : ℕ) (s : RuntimeState)
      → cached k s.module_cache ≡ some m
      → lookup_or_load files k s ≡ loaded m s
  unfolding lookup_or_load
  lookup_or_load-present k m s e = rw (e, lookup_or_load) refl

  resolve_module-present :
      (specifier : String) (referrer : ℕ) (k : String) (m : ℕ) (s : RuntimeState)
      → files.canonical (target_path files specifier referrer s) ≡ some k
      → cached k s.module_cache ≡ some m
      → resolve_module files specifier referrer s ≡ loaded m s
  unfolding resolve_module
  resolve_module-present specifier referrer k m s c e =
      rw (c, resolve_module) (lookup_or_load-present k m s e)

  -- What `LoadAndRunModules` evaluates is the module that it compiled and linked.
  pub load_and_run_modules-evaluates :
      (e : Engine) (path : String) (s s'' : RuntimeState) (script : Script)
      → load_and_run_modules files e path s ≡ evaluates script s''
      → (m : ℕ) × (s' : RuntimeState) × (load_module files path s ≡ ready m s')
        × (e.instantiate (resolve_module files) m s' ≡ linked s'')
        × (script ≡ e.script_of m)
  unfolding load_and_run_modules
  load_and_run_modules-evaluates e path s s'' script h =
      elim (Entry-cases (load_module files path s)) [
        | inl (m, s', l) ↦ elim (Instantiated-cases (e.instantiate (resolve_module files) m s')) [
          | inl (t, i) ↦ (m, s', l, ground (arith, i), ground (arith, i))
          | inr (t, u, i) ↦ (m, s', l, ground arith, ground arith)
        ]
        | inr (ls, f) ↦ (0, s, ground arith, ground arith, ground arith)
      ]

  -- The module that the process evaluates is the one that the loader keeps for the canonical path of
  -- the entry: once the evaluation starts, an import of that path, from any module and by any
  -- specifier, gives the module that runs, and nothing is read or compiled for it. It is assumed
  -- that `InstantiateModule` changes the state of the loader by its calls of the callback alone.
  pub load_and_run_modules-resolve_module :
      (e : Engine) (path k : String) (s s'' : RuntimeState) (script : Script) (specifier : String)
      (referrer : ℕ)
      → Links files e
      → files.canonical path ≡ some k
      → load_and_run_modules files e path s ≡ evaluates script s''
      → files.canonical (target_path files specifier referrer s'') ≡ some k
      → (m : ℕ) × (script ≡ e.script_of m)
        × (resolve_module files specifier referrer s'' ≡ loaded m s'')
  unfolding Links
  load_and_run_modules-resolve_module e path k s s'' script specifier referrer links c h t =
      let (m, s', l, i, is) = load_and_run_modules-evaluates e path s s'' script h in
      let (imports, after) = links m s' s'' i in
      (
        m,
        is,
        resolve_module-present specifier referrer k m s'' t (
            subst (λ u. cached k u.module_cache ≡ some m) (sym after)
              (resolve_all-cached files imports k m s' (load_module-cached path k m s s' c l))),
      )
