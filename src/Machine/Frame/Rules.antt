-- ===== src/Machine/Frame/Rules.antt =====
-- The rules for what a primitive leaves alone.
use runtime_system.Base.{ℕ, ◌≡◌, refl, List, Option, none, some, Bool, true, false, if◌then◌else◌}
use runtime_system.State.{World, Kind, Operation, Cont, Waits}
use runtime_system.State.Memory.Frame.{Keeps, Keeps-trans, retain_all-Keeps}
use runtime_system.State.Memory.Requests.{asked-Keeps}
use runtime_system.External.{External}
use runtime_system.Primitive.{Outcome, replies, blocks, resumes, spins, aborts, start}

-- `P` holds of the world that an outcome leaves, if the process goes on.
abbrev pub Leaves : (World → Type 0) → Outcome → Type 0
Leaves P (replies r v) = P v
Leaves P (blocks c v) = P v
Leaves P (resumes f v) = P v
Leaves P (spins s l v) = P v
Leaves P aborts = Unit {0}

pub start-Keeps :
    (x : External) (k : Kind) (op : Operation) (next : Waits → Cont) (held : List ℕ) (w : World)
    → Leaves (Keeps w) (start x k op next held w)
unfolding start
start-Keeps x k op next held w = Keeps-trans _ _ _ (asked-Keeps x k op w) (retain_all-Keeps held _)

-- A primitive that begins with a lookup.
pub by_lookup :
    {A : Type 0} (P : World → Type 0) (absent : Outcome) (present : A → Outcome) (m : Option A)
    → Leaves P absent
    → ((a : A) → Leaves P (present a))
    → Leaves P (elim m [ none ↦ absent | some a ↦ present a ])
by_lookup P absent present none n s = n
by_lookup P absent present (some a) n s = s a

pub by_lookup_known :
    {A : Type 0} (P : World → Type 0) (absent : Outcome) (present : A → Outcome) (m : Option A)
    → Leaves P absent
    → ((a : A) → m ≡ some a → Leaves P (present a))
    → Leaves P (elim m [ none ↦ absent | some a ↦ present a ])
by_lookup_known P absent present none n s = n
by_lookup_known P absent present (some a) n s = s a refl

pub by_test_known :
    (P : World → Type 0) (b : Bool) (yes_case no_case : Outcome)
    → (b ≡ true → Leaves P yes_case)
    → (b ≡ false → Leaves P no_case)
    → Leaves P (if b then yes_case else no_case)
by_test_known P true yes_case no_case y n = y refl
by_test_known P false yes_case no_case y n = n refl

pub by_test :
    (P : World → Type 0) (b : Bool) (yes_case no_case : Outcome)
    → Leaves P yes_case
    → Leaves P no_case
    → Leaves P (if b then yes_case else no_case)
by_test P true yes_case no_case y n = y
by_test P false yes_case no_case y n = n

-- What keeps a later world keeps an earlier one.
pub Leaves-Keeps : (u v : World) (o : Outcome) → Keeps u v → Leaves (Keeps v) o → Leaves (Keeps u) o
Leaves-Keeps u v (replies r w) p q = Keeps-trans u v w p q
Leaves-Keeps u v (blocks c w) p q = Keeps-trans u v w p q
Leaves-Keeps u v (resumes f w) p q = Keeps-trans u v w p q
Leaves-Keeps u v (spins s l w) p q = Keeps-trans u v w p q
Leaves-Keeps u v aborts p q = q
