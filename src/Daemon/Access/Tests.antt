-- ===== src/Daemon/Access/Tests.antt =====
-- The theorems about linux-hello/src/daemon/access.py on a small system: ann (1000) sits at seat0.
use Prim.Native.String.{String}
use text.Mathlib.Text.{◌==◌ as str_eq}
use linux_hello.Prelude.{ℕ, ◌≡◌, ◌≢◌, refl, ◌⊎◌, true, none, some, [], ◌∷◌, ◌==◌, if◌then◌else◌}
use linux_hello.Daemon.Access.{
  Caller, passes, System, action_manage_users, local_and_active, is_at_seat, any_at_seat,
  sessions_of, has_local_session, authorized, require, is_self_of, require_self_or_admin,
}
use linux_hello.Daemon.Access.Rules.{
  Any, IsAtSeat, IsHere, has_local_session-IsHere, require_self_or_admin-passes,
}

abbrev seated : System
seated = record {
  check_authorization = λ caller action. some (str_eq action "io.github.linuxhello.enroll-self");
  user_name = λ uid. if uid == 1000 then some "ann" else none;
  session_by_pid = λ pid. some "/session/2";
  list_sessions = some (
      record { uid = 1001; seat = ""; path = "/session/1" }
      ∷ record { uid = 1000; seat = "seat0"; path = "/session/2" }
      ∷ []);
  session = λ path. record { active = some true; remote = some (str_eq path "/session/1") };
}

abbrev asking : ℕ
asking = 77

ann_is_here : has_local_session seated 1000 asking ≡ true
unfolding has_local_session any_at_seat is_at_seat local_and_active
ann_is_here = refl

has_local_session-IsHere_example :
    Any (IsAtSeat seated 1000) (sessions_of seated.list_sessions)
    × (asking ≢ 0
        → seated.session_by_pid asking ≡ some "/session/2"
        → IsHere (seated.session "/session/2"))
has_local_session-IsHere_example =
    has_local_session-IsHere seated 1000 asking "/session/2" ann_is_here

abbrev ann : Caller
ann = record { sender = ":1.7"; uid = 1000 }

ann_passes :
    require_self_or_admin seated ann "ann" (some "io.github.linuxhello.enroll-self") ≡ passes
unfolding require_self_or_admin is_self_of require authorized
ann_passes = refl

require_self_or_admin-passes_example :
    (ann.uid ≡ 0)
    ⊎ ((seated.user_name ann.uid ≡ some "ann")
        × ((action : String)
            → some "io.github.linuxhello.enroll-self" ≡ some action
            → seated.check_authorization ann action ≡ some true))
    ⊎ ((seated.user_name ann.uid ≢ some "ann")
        × (seated.check_authorization ann action_manage_users ≡ some true))
require_self_or_admin-passes_example =
    require_self_or_admin-passes seated ann "ann" (some "io.github.linuxhello.enroll-self")
      ann_passes
