-- ===== src/Daemon/Access/Rules.antt =====
-- Whom the composite rules of linux-hello/src/daemon/access.py let pass.
use Prim.Native.String.{String}
use text.Mathlib.TextEquality.{eq_iff}
use linux_hello.Prelude.{
  ℕ, ◌≡◌, ◌≢◌, ◌↔◌, refl, ◌⊎◌, inl, inr, Bool, true, false, not, ◌&&◌, Option, none, some, List, [],
  ◌∷◌, arith, ◌==◌, if◌then◌else◌, Bool-cases,
}
use linux_hello.Daemon.Access.{
  Caller, passes, Session, Listed, System, action_manage_users, local_and_active, is_at_seat,
  any_at_seat, sessions_of, has_local_session, authorized, require_of, require, is_self_of,
  is_name_of, require_own, require_self_or_admin,
}

-- Active, and known not to be remote.
abbrev pub IsHere : Session → Type 0
IsHere s = (s.active ≡ some true) × (s.remote ≡ some false)

-- A session of the user at a seat.
pub record IsAtSeat (y : System) (uid : ℕ) (l : Listed) : Type 0 where
  pub owner : l.uid ≡ uid
  pub seated : l.seat ≢ ""
  pub here : IsHere (y.session l.path)

abbrev pub Any {ℓ} : {A : Type ℓ} → (A → Type 0) → List A → Type 0
Any P [] = ⊥
Any P (x ∷ xs) = P x ⊎ Any P xs

local_and_active-IsHere : (s : Session) → local_and_active s ≡ true → IsHere s
unfolding local_and_active
local_and_active-IsHere s h = here s.active s.remote h
  where
    here :
        (a r : Option Bool)
        → local_and_active (record { active = a; remote = r }) ≡ true
        → (a ≡ some true) × (r ≡ some false)
    here (some true) (some false) e = (refl, refl)
    here none r e = cc e
    here (some false) r e = cc e
    here (some true) none e = cc e
    here (some true) (some true) e = cc e

is_at_seat-IsAtSeat :
    (y : System) (uid : ℕ) (l : Listed) → is_at_seat y uid l ≡ true → IsAtSeat y uid l
unfolding is_at_seat
is_at_seat-IsAtSeat y uid l h = record {
  owner = ground arith;
  seated = λ e. ground (arith, eq_iff l.seat "", e);
  here = local_and_active-IsHere (y.session l.path) (ground arith);
}

any_at_seat-Any :
    (y : System) (uid : ℕ) (ls : List Listed)
    → any_at_seat y uid ls ≡ true
    → Any (IsAtSeat y uid) ls
unfolding any_at_seat
any_at_seat-Any y uid [] h = cc h
any_at_seat-Any y uid (l ∷ ls) h = elim (Bool-cases (is_at_seat y uid l)) [
  | inl at ↦ inl (is_at_seat-IsAtSeat y uid l at)
  | inr other ↦
      let rest : any_at_seat y uid ls ≡ true = rw other at h in inr (any_at_seat-Any y uid ls rest)
]

-- `has_local_session` says yes only if the user has an active session at a seat that is not remote, and
-- the asking process, where it is known and is in a session, is in an active one that is not remote.
pub has_local_session-IsHere :
    (y : System) (uid pid : ℕ) (path : String)
    → has_local_session y uid pid ≡ true
    → Any (IsAtSeat y uid) (sessions_of y.list_sessions)
      × (pid ≢ 0 → y.session_by_pid pid ≡ some path → IsHere (y.session path))
unfolding has_local_session
has_local_session-IsHere y uid pid path h = (
  any_at_seat-Any y uid _ (ground arith),
  λ known e.
      let checked : (if not (pid == 0) && not (local_and_active (y.session path))
            then false
            else any_at_seat y uid (sessions_of y.list_sessions))
          ≡ true =
        rw e at h in
      local_and_active-IsHere (y.session path) (ground (arith, checked, known)),
)

-- Someone who is not root passes `require` only with polkit's yes.
require-passes :
    (y : System) (caller : Caller) (action : String)
    → caller.uid ≢ 0
    → require y caller action ≡ passes
    → y.check_authorization caller action ≡ some true
unfolding require authorized
require-passes y caller action other h = elim (Bool-cases (caller.uid == 0)) [
  | inl root ↦ absurd (other (ground arith))
  | inr user ↦
      let asked : require_of (y.check_authorization caller action) ≡ passes = rw user at h in
      yes (y.check_authorization caller action) asked
]
  where
    yes : (o : Option Bool) → require_of o ≡ passes → o ≡ some true
    yes none e = cc e
    yes (some true) e = refl
    yes (some false) e = cc e

name_of-same : (o : Option String) (user : String) → (is_name_of o user ≡ true) ↔ (o ≡ some user)
name_of-same none user = ground arith
name_of-same (some name) user = ground (arith, eq_iff name user)

-- Whoever passes `require_self_or_admin` is root, or polkit said yes: for users acting on themselves to
-- the action for that, which may be none, for all others to the administrators' action.
pub require_self_or_admin-passes :
    (y : System) (caller : Caller) (user : String) (action_self : Option String)
    → require_self_or_admin y caller user action_self ≡ passes
    → (caller.uid ≡ 0)
      ⊎ ((y.user_name caller.uid ≡ some user)
          × ((action : String)
              → action_self ≡ some action
              → y.check_authorization caller action ≡ some true))
      ⊎ ((y.user_name caller.uid ≢ some user)
          × (y.check_authorization caller action_manage_users ≡ some true))
unfolding require_self_or_admin is_self_of
require_self_or_admin-passes y caller user action_self h = elim (Bool-cases (caller.uid == 0)) [
  | inl root ↦ inl (ground arith)
  | inr someone ↦
      let other : caller.uid ≢ 0 = ground arith in
      elim (Bool-cases (is_name_of (y.user_name caller.uid) user)) [
        | inl self ↦
            let own : require_own y caller action_self ≡ passes = rw (someone, self) at h in
            inr (
              inl (
                (name_of-same (y.user_name caller.uid) user).0 self,
                λ action e. require-passes y caller action other (
                    let asked : require_own y caller (some action) ≡ passes = rw e at own in asked),
              ))
        | inr not_self ↦
            let admin : require y caller action_manage_users ≡ passes =
              rw (someone, not_self) at h in
            inr (
              inr (
                (λ e. ground (arith, name_of-same (y.user_name caller.uid) user, e, not_self)),
                require-passes y caller action_manage_users other admin,
              ))
      ]
]
