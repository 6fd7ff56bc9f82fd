-- ===== src/Daemon/Access.antt =====
-- Who may do what (linux-hello/src/daemon/access.py, class Access). What polkit, login1 and the user
-- database answer is an argument; `none` is an error reply.
pub mod Rules
mod Tests
use Prim.Native.String.{String}
use text.Mathlib.Text.{◌==◌ as str_eq}
use linux_hello.Prelude.{
  ℕ, Bool, true, false, not, ◌&&◌, Option, none, some, List, [], ◌∷◌, ◌==◌, if◌then◌else◌, is_some,
}

pub record Caller : Type 0 where
  pub sender : String
  pub uid : ℕ

-- What a rule comes to: nothing, or an error raised.
pub data Verdict : Type 0 where
  passes permission_denied internal : Verdict

-- The properties of a session that are read; both `none` where login1 gives no answer.
pub record Session : Type 0 where
  pub active : Option Bool
  pub remote : Option Bool

pub record Listed : Type 0 where
  pub uid : ℕ
  pub seat : String
  pub path : String

pub record System : Type 0 where
  pub check_authorization : Caller → String → Option Bool
  pub user_name : ℕ → Option String
  pub session_by_pid : ℕ → Option String
  pub list_sessions : Option (List Listed)
  pub session : String → Session

abbrev pub action_manage_users : String
action_manage_users = "io.github.linuxhello.manage-users"

abbrev pub is_true : Option Bool → Bool
is_true (some b) = b
is_true none = false

-- `is False`
abbrev pub is_false : Option Bool → Bool
is_false (some b) = not b
is_false none = false

unfoldable pub local_and_active : Session → Bool
local_and_active s = is_true s.active && is_false s.remote

-- The session of the asking process lets it ask: one without a session does.
abbrev pub process_may : System → Option String → Bool
process_may y none = true
process_may y (some path) = local_and_active (y.session path)

unfoldable pub is_at_seat : System → ℕ → Listed → Bool
is_at_seat y uid l = l.uid == uid && not (str_eq l.seat "") && local_and_active (y.session l.path)

unfoldable pub any_at_seat : System → ℕ → List Listed → Bool
any_at_seat y uid [] = false
any_at_seat y uid (l ∷ ls) = if is_at_seat y uid l then true else any_at_seat y uid ls

abbrev pub sessions_of : Option (List Listed) → List Listed
sessions_of none = []
sessions_of (some ls) = ls

unfoldable pub has_local_session : System → ℕ → ℕ → Bool
has_local_session y uid pid =
    if not (pid == 0) && not (process_may y (y.session_by_pid pid))
    then false
    else any_at_seat y uid (sessions_of y.list_sessions)

-- Root is always allowed; `none` is raised.
unfoldable pub authorized : System → Caller → String → Option Bool
authorized y caller action =
    if caller.uid == 0 then some true else y.check_authorization caller action

abbrev pub require_of : Option Bool → Verdict
require_of none = internal
require_of (some true) = passes
require_of (some false) = permission_denied

unfoldable pub require : System → Caller → String → Verdict
require y caller action = require_of (authorized y caller action)

abbrev pub is_name_of : Option String → String → Bool
is_name_of none user = false
is_name_of (some name) user = str_eq name user

unfoldable pub is_self_of : System → Caller → String → Bool
is_self_of y caller user = not (caller.uid == 0) && is_name_of (y.user_name caller.uid) user

abbrev pub require_own : System → Caller → Option String → Verdict
require_own y caller none = passes
require_own y caller (some action) = require y caller action

unfoldable pub require_self_or_admin : System → Caller → String → Option String → Verdict
require_self_or_admin y caller user action_self =
    if caller.uid == 0
    then passes
    else if is_self_of y caller user
    then require_own y caller action_self
    else require y caller action_manage_users
