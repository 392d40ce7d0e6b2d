-- ===== src/Process/Starting.antt =====
-- When the process starts.
use runtime_system.Base.{
  ℕ, ◌+◌, ◌≡◌, ◌≢◌, ◌⊎◌, inl, inr, refl, sym, ap, ◌∙◌, String, List, [], ◌∷◌, ◌++◌, Option, none,
  some, arith, Option-cases,
}
use Prim.Native.String
use runtime_system.Value.{TryCatch, Line, plain, report_exception}
use runtime_system.State.{World, Script, main_stack}
use runtime_system.Machine.{machine, executing}
use runtime_system.Shutdown.{boot}
use runtime_system.Loader.{Files, RuntimeState, resolve_module, cache}
use runtime_system.Loader.Entry.{
  Engine, Started, Instantiated, evaluates, exits, ready, fatal, linked, failed, load_module,
  load_and_run_modules, report_caught,
}
use runtime_system.Loader.Entry.Linked.{
  Entry-cases, load_and_run_modules-evaluates, Instantiated-cases,
}
use runtime_system.Process.{Process, serving, ended, start, launch, initial_world, initial_state}

-- There is an argument, it names a file that can be read and compiled, and `InstantiateModule` ends in
-- the given way.
abbrev pub InstantiatesTo : Files → Engine → List String → Instantiated → Type 0
InstantiatesTo files e args i =
    (path : String) × (rest : List String) × (abs_path code : String) × (args ≡ path ∷ rest)
    × (files.canonical path ≡ some abs_path)
    × (files.read_file_sync abs_path ≡ some code)
    × (files.compile_exception abs_path code ≡ none)
    × (e.instantiate (resolve_module files) 0 (record {
      module_cache = (abs_path, 0) ∷ [];
      next_module = 1;
      compiled = abs_path ∷ [];
      stderr = [];
    })
        ≡ i)

-- There is an argument, and it names a file that can be read and compiled, and that links.
abbrev pub CanStart : Files → Engine → List String → Type 0
CanStart files e args = (s : RuntimeState) × InstantiatesTo files e args (linked s)

-- Linking fails, and the `TryCatch` of `main` holds nothing.
abbrev pub LosesException : Files → Engine → List String → Type 0
LosesException files e args = (s : RuntimeState) × InstantiatesTo files e args (failed none s)

-- The process evaluates the entry module.
abbrev pub Evaluates : Engine → Process → Type 0
Evaluates e p = (w : World) × (p ≡ serving (machine w (executing main_stack (e.script_of 0))))

-- The process has ended with the code 1, and with something on `std::cerr` unless linking failed and
-- the exception was lost.
abbrev pub Complains : Files → Engine → List String → Process → Type 0
Complains files e args p =
    (ls : List Line) × (p ≡ ended 1 ls) × ((ls ≢ []) ⊎ LosesException files e args)

pub append-report_exception : (ls : List Line) (t : TryCatch) → ls ++ report_exception t ≢ []
unfolding report_exception
append-report_exception [] t h = ground (arith, h)
append-report_exception (l ∷ ls) t h = ground arith

append-plain : (ls : List Line) (l : Line) → ls ++ l ∷ [] ≢ []
append-plain [] l h = ground arith
append-plain (k ∷ ls) l h = ground arith

pub Started-cases :
    (r : Started)
    → ((script : Script) × (s : RuntimeState) × (r ≡ evaluates script s))
      ⊎ ((ls : List Line) × (r ≡ exits ls))
Started-cases (evaluates script s) = inl (script, s, refl)
Started-cases (exits ls) = inr (ls, refl)

module _ (files : Files) where
  load_module-fatal :
      (path : String) (s : RuntimeState) (ls : List Line)
      → load_module files path s ≡ fatal ls
      → ls ≢ []
  unfolding load_module
  load_module-fatal path s ls h z = elim (Option-cases (files.canonical path)) [
    | inl a ↦ ground (
      arith,
      append-plain s.stderr (plain (String.◌++◌ "Fatal: Failed to find canonical path for " path)),
    )
    | inr (abs_path, a) ↦ elim (Option-cases (files.read_file_sync abs_path)) [
      | inl b ↦
          ground (arith, append-plain s.stderr (plain (String.◌++◌ "Fatal: Failed to read " path)))
      | inr (code, b) ↦ elim (Option-cases (files.compile_exception abs_path code)) [
        | inl c ↦ ground arith
        | inr (t, c) ↦ ground (arith, append-report_exception s.stderr t)
      ]
    ]
  ]

  load_module-ready :
      (path : String) (m : ℕ) (s s' : RuntimeState)
      → load_module files path s ≡ ready m s'
      → (abs_path code : String) × (files.canonical path ≡ some abs_path)
        × (files.read_file_sync abs_path ≡ some code)
        × (files.compile_exception abs_path code ≡ none)
        × (m ≡ s.next_module)
        × (s' ≡ record s {
          module_cache = cache abs_path s.next_module s.module_cache;
          next_module = s.next_module + 1;
          compiled = abs_path ∷ s.compiled;
        })
  unfolding load_module
  load_module-ready path m s s' h = elim (Option-cases (files.canonical path)) [
    | inl a ↦ ("", "", ground arith, ground arith, ground arith, ground arith, ground arith)
    | inr (abs_path, a) ↦ elim (Option-cases (files.read_file_sync abs_path)) [
      | inl b ↦ (abs_path, "", ground arith, ground arith, ground arith, ground arith, ground arith)
      | inr (code, b) ↦ (abs_path, code, a, b, ground arith, ground arith, ground arith)
    ]
  ]

  failed-complains :
      (e : Engine) (path : String) (rest : List String) (m : ℕ) (s s'' : RuntimeState)
      (t : Option TryCatch) (ls : List Line)
      → load_module files path initial_state ≡ ready m s
      → e.instantiate (resolve_module files) m s ≡ failed t s''
      → ls ≡ s''.stderr ++ report_caught t
      → (ls ≢ []) ⊎ LosesException files e (path ∷ rest)
  unfolding report_caught cache
  failed-complains e path rest m s s'' (some t) ls l i h =
      inl (ground (arith, append-report_exception s''.stderr t))
  failed-complains e path rest m s s'' none ls l i h =
      let (abs_path, code, ec, er, et, em, es) = load_module-ready path m initial_state s l in
      inr (
        s'',
        (
          path,
          rest,
          abs_path,
          code,
          refl,
          ec,
          er,
          et,
          sym (ap (e.instantiate (resolve_module files) 0) es)
              ∙ sym (ap (λ n. e.instantiate (resolve_module files) n s) em)
              ∙ i,
        ),
      )

  load_and_run_modules-exits :
      (e : Engine) (path : String) (rest : List String) (ls : List Line)
      → load_and_run_modules files e path initial_state ≡ exits ls
      → (ls ≢ []) ⊎ LosesException files e (path ∷ rest)
  unfolding load_and_run_modules
  load_and_run_modules-exits e path rest ls h =
      elim (Entry-cases (load_module files path initial_state)) [
        | inl (m, s', l) ↦ elim (Instantiated-cases (e.instantiate (resolve_module files) m s')) [
          | inl (s'', i) ↦ ground arith
          | inr (t, s'', i) ↦ failed-complains e path rest m s' s'' t ls l i (ground arith)
        ]
        | inr (ks, l) ↦ inl (ground (arith, load_module-fatal path initial_state ls))
      ]

  CanStart-evaluates :
      (e : Engine) (path : String) (rest : List String)
      → CanStart files e (path ∷ rest)
      → (s : RuntimeState) × (load_and_run_modules files e path initial_state
          ≡ evaluates (e.script_of 0) s)
  unfolding load_and_run_modules load_module cache
  CanStart-evaluates e path rest (s, (path', rest', abs_path, code, ea, ec, er, et, el)) =
      (s, ground arith)

  evaluates-CanStart :
      (e : Engine) (path : String) (rest : List String) (script : Script) (s : RuntimeState)
      → load_and_run_modules files e path initial_state ≡ evaluates script s
      → CanStart files e (path ∷ rest) × (script ≡ e.script_of 0)
  unfolding cache
  evaluates-CanStart e path rest script s h =
      let (m, s', l, i, is) =
        load_and_run_modules-evaluates files e path initial_state s script h in
      let (abs_path, code, ec, er, et, em, es) = load_module-ready path m initial_state s' l in
      (
        (
          s,
          (
            path,
            rest,
            abs_path,
            code,
            refl,
            ec,
            er,
            et,
            sym (ap (e.instantiate (resolve_module files) 0) es)
                ∙ sym (ap (λ n. e.instantiate (resolve_module files) n s') em)
                ∙ i,
          ),
        ),
        is ∙ ap e.script_of em,
      )

module _ (files : Files) (e : Engine) (argv0 : String) where
  start-evaluates :
      (path : String) (rest : List String) (script : Script) (s : RuntimeState)
      → load_and_run_modules files e path initial_state ≡ evaluates script s
      → script ≡ e.script_of 0
      → Evaluates e (start files e argv0 (path ∷ rest))
  unfolding start launch boot
  start-evaluates path rest script s h is = (
    (boot script (record initial_world { stderr = s.stderr })).world,
    rw (h, start, launch, is) refl,
  )

  start-exits :
      (path : String) (rest : List String) (ls : List Line)
      → load_and_run_modules files e path initial_state ≡ exits ls
      → Complains files e (path ∷ rest) (start files e argv0 (path ∷ rest))
  unfolding start launch
  start-exits path rest ls h =
      (ls, rw (h, start, launch) refl, load_and_run_modules-exits files e path rest ls h)

  -- The process starts to evaluate the entry module exactly if there is an argument whose file
  -- can be found, read, compiled and linked; else it ends with the code 1, and with something on
  -- `std::cerr` unless `InstantiateModule` failed and left nothing in the `TryCatch` of main.
  pub start_iff :
      (args : List String)
      → (CanStart files e args × Evaluates e (start files e argv0 args))
        ⊎ (¬ CanStart files e args × Complains files e args (start files e argv0 args))
  unfolding start
  start_iff [] = inr (
    λ (s, (path, rest, abs_path, code, ea, ec, er, et, el)). ground arith,
    (_, refl, inl (ground arith)),
  )
  start_iff (path ∷ rest) = elim (Started-cases (load_and_run_modules files e path initial_state)) [
    | inl (script, s, h) ↦
        let (can, is) = evaluates-CanStart files e path rest script s h in
        inl (can, start-evaluates path rest script s h is)
    | inr (ls, h) ↦ inr (
      λ can. let (s, h') = CanStart-evaluates files e path rest can in ground arith,
      start-exits path rest ls h,
    )
  ]
