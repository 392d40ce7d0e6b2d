-- ===== src/Loader/Cache.antt =====
-- The cache of modules: a path that was loaded stays the same module, whoever imports it.
use text.Mathlib.Text.{◌==◌ as str_eq}
use text.Mathlib.TextEquality.{eq_iff}
use runtime_system.Base.{
  ℕ, ◌≡◌, refl, inl, inr, String, List, [], ◌∷◌, none, some, arith, if◌then◌else◌, Option-cases,
}
use runtime_system.Loader.{
  Files, RuntimeState, loaded, cached, cache, resolve_module, load_uncached, lookup_or_load,
  target_path, state_of,
}

pub cached-cache :
    (k j : String) (m : ℕ) (c : List (String × ℕ))
    → cached j (cache k m c) ≡ (if str_eq k j then some m else cached j c)
unfolding cached cache
cached-cache k j m [] = refl
cached-cache k j m ((i, n) ∷ c) =
    ground (arith, eq_iff k j, eq_iff i k, eq_iff i j, cached-cache k j m c)

module _ (files : Files) where
  -- The resolutions of a list of imports, one after another, as `InstantiateModule` asks for them.
  unfoldable pub resolve_all : List (String × ℕ) → RuntimeState → RuntimeState
  resolve_all [] s = s
  resolve_all ((specifier, referrer) ∷ rest) s =
      resolve_all rest (state_of (resolve_module files specifier referrer s))

  load_uncached-cached :
      (p k : String) (m : ℕ) (s : RuntimeState)
      → cached p s.module_cache ≡ none
      → cached k s.module_cache ≡ some m
      → cached k (state_of (load_uncached files p s)).module_cache ≡ some m
  unfolding load_uncached
  load_uncached-cached p k m s a e =
      ground (arith, eq_iff p k, cached-cache p k s.next_module s.module_cache)

  lookup_or_load-cached :
      (p k : String) (m : ℕ) (s : RuntimeState)
      → cached k s.module_cache ≡ some m
      → cached k (state_of (lookup_or_load files p s)).module_cache ≡ some m
  unfolding lookup_or_load
  lookup_or_load-cached p k m s e = elim (Option-cases (cached p s.module_cache)) [
    | inl absent ↦ rw (absent, lookup_or_load) (load_uncached-cached p k m s absent e)
    | inr (n, present) ↦ rw (present, lookup_or_load) e
  ]

  resolve_module-cached :
      (specifier : String) (referrer : ℕ) (k : String) (m : ℕ) (s : RuntimeState)
      → cached k s.module_cache ≡ some m
      → cached k (state_of (resolve_module files specifier referrer s)).module_cache ≡ some m
  unfolding resolve_module
  resolve_module-cached specifier referrer k m s e =
      elim (Option-cases (files.canonical (target_path files specifier referrer s))) [
        | inl unknown ↦ rw (unknown, resolve_module) e
        | inr (p, found) ↦ rw (found, resolve_module) (lookup_or_load-cached p k m s e)
      ]

  pub resolve_all-cached :
      (imports : List (String × ℕ)) (k : String) (m : ℕ) (s : RuntimeState)
      → cached k s.module_cache ≡ some m
      → cached k (resolve_all imports s).module_cache ≡ some m
  unfolding resolve_all
  resolve_all-cached [] k m s e = e
  resolve_all-cached ((specifier, referrer) ∷ rest) k m s e =
      resolve_all-cached rest k m _ (resolve_module-cached specifier referrer k m s e)

  load_uncached-loaded :
      (p : String) (m : ℕ) (s s' : RuntimeState)
      → load_uncached files p s ≡ loaded m s'
      → cached p s'.module_cache ≡ some m
  unfolding load_uncached
  load_uncached-loaded p m s s' e =
      ground (arith, eq_iff p p, cached-cache p p s.next_module s.module_cache)

  resolve_module-loaded :
      (specifier : String) (referrer : ℕ) (k : String) (m : ℕ) (s s' : RuntimeState)
      → files.canonical (target_path files specifier referrer s) ≡ some k
      → resolve_module files specifier referrer s ≡ loaded m s'
      → cached k s'.module_cache ≡ some m
  unfolding resolve_module lookup_or_load
  resolve_module-loaded specifier referrer k m s s' c e =
      ground (arith, load_uncached-loaded k m s s')

  -- A module that was loaded for a canonical path is the one that every later import of that path
  -- gets, from any module and by any specifier, and nothing is read or compiled for it again.
  pub resolve_module_again :
      (specifier : String) (referrer : ℕ) (imports : List (String × ℕ)) (specifier' : String)
      (referrer' : ℕ) (k : String) (m : ℕ) (s s' : RuntimeState)
      → files.canonical (target_path files specifier referrer s) ≡ some k
      → resolve_module files specifier referrer s ≡ loaded m s'
      → files.canonical (target_path files specifier' referrer' (resolve_all imports s')) ≡ some k
      → resolve_module files specifier' referrer' (resolve_all imports s')
        ≡ loaded m (resolve_all imports s')
  unfolding resolve_module lookup_or_load
  resolve_module_again specifier referrer imports specifier' referrer' k m s s' c e c' = ground (
    arith,
    resolve_all-cached imports k m s' (resolve_module-loaded specifier referrer k m s s' c e),
  )
