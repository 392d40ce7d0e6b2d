-- ===== src/Machine/Frame/Values.antt =====
-- What `CreateResultValue` leaves alone.
use runtime_system.Base.{
  ℕ, ℤ, String, List, Option, none, some, Bool, true, false, if◌then◌else◌, is_negative, refl,
  arith,
}
use runtime_system.Value.{Value}
use runtime_system.State.{World, AsyncContext, Kind, FsType, Dirent, Stat}
use runtime_system.State.Memory.Frame.{
  Keeps, Keeps-refl, Keeps-trans, add_new-Keeps, add_handle-Keeps, set_class-Keeps, ticked-Keeps,
  new_object-Keeps, release-Keeps,
}
use runtime_system.External.{External}
use runtime_system.Fs.{fs_success}
use runtime_system.Tcp.{connect_success, accept_success, new_net, net_at}
use runtime_system.Async.{create_result_value, success}

-- The world that `CreateResultValue` leaves.
abbrev pub left_by : World → Option (Value × World) → World
left_by w none = w
left_by w (some (v, u)) = u

pub by_option :
    {A B : Type 0} (P : B → Type 0) (absent : B) (present : A → B) (m : Option A)
    → P absent
    → ((a : A) → P (present a))
    → P (elim m [ none ↦ absent | some a ↦ present a ])
by_option P absent present none n s = n
by_option P absent present (some a) n s = s a

by_if :
    {B : Type 0} (P : B → Type 0) (b : Bool) (yes_case no_case : B)
    → P yes_case
    → P no_case
    → P (if b then yes_case else no_case)
by_if P true yes_case no_case y n = y
by_if P false yes_case no_case y n = n

fs_success-Keeps :
    (r : ℤ) (t : FsType) (path : String) (ds : List Dirent) (s : Stat) (w : World)
    → Keeps w (fs_success r t path ds s w).1
unfolding fs_success
fs_success-Keeps r FsType.fs_open path ds s w = add_new-Keeps _ w refl
fs_success-Keeps r FsType.fs_scandir path ds s w = add_new-Keeps _ w refl
fs_success-Keeps r FsType.fs_read path ds s w = Keeps-refl w
fs_success-Keeps r _ path ds s w = Keeps-refl w

module _ (x : External) where
  accept_success-Keeps : (server : ℕ) (w : World) → Keeps w (left_by w (accept_success x server w))
  unfolding accept_success new_net
  accept_success-Keeps server w =
      let made = Keeps-trans _ _ _ (ticked-Keeps w) (new_object-Keeps _ _ refl) in
      by_option (λ o. Keeps w (left_by w o)) none _ (net_at server w) (Keeps-refl w)
        λ n.
          by_option (λ o. Keeps w (left_by w o)) _ _ (x.accept (new_net x w).1.tick n.handle.socket)
            (Keeps-trans _ _ _ made (Keeps-trans _ _ _ (ticked-Keeps _) (release-Keeps _ _)))
            λ client.
              (Keeps-trans _ _ _ made (
                Keeps-trans _ _ _ (ticked-Keeps _) (
                  Keeps-trans _ _ _ (set_class-Keeps _ _ _ (λ c e. ground arith))
                    (add_handle-Keeps _ _))))

  success-Keeps : (r : ℤ) (k : Kind) (w : World) → Keeps w (left_by w (success x r k w))
  unfolding success connect_success
  success-Keeps r (Kind.fs t path ds s) w = fs_success-Keeps r t path ds s w
  success-Keeps r (Kind.connect socket) w =
      (Keeps-trans _ _ _ (ticked-Keeps w) (add_new-Keeps _ _ refl))
  success-Keeps r (Kind.accept server) w = accept_success-Keeps server w
  success-Keeps r _ w = Keeps-refl w

  pub create_result_value-Keeps :
      (a : AsyncContext) (w : World) → Keeps w (left_by w (create_result_value x a w))
  unfolding create_result_value
  create_result_value-Keeps a w =
      by_if (λ o. Keeps w (left_by w o)) (is_negative a.result) _ _ (Keeps-refl w)
        (success-Keeps a.result a.kind w)
