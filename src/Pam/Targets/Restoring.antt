-- ===== src/Pam/Targets/Restoring.antt =====
-- `enable` of linux-hello/src/integration/pam.py when a step fails.
use linux_hello.Prelude.{
  ◌≡◌, ◌≢◌, refl, ap, subst, ◌∙◌, ◌⊎◌, inl, inr, Bool, true, false, Option, none, some, [], ◌∷◌,
  Bool-cases, Option-cases, if_cases,
}
use linux_hello.Prelude.Bytes.{same_bytes_apart, same_bytes, same_bytes_sound}
use linux_hello.Prelude.Store.{
  Store, lookup, lookup-store_self, lookup-store_other, lookup-erase_self, lookup-erase_other,
}
use linux_hello.Pam.Text.{Text}
use linux_hello.Pam.Blocks.{Result, ok, pam_error}
use linux_hello.Pam.Files.{Files, is_file}
use linux_hello.Pam.Enable.{Entry, Work}
use linux_hello.Pam.Enable.Framing.{
  IsFramed, enable_insert-IsFramed, enable_wallet-IsFramed, enable_own-IsFramed,
  enable_kde_config-IsFramed, enable_autologin-IsFramed,
}
use linux_hello.Pam.Targets.{
  Kind, insert, own, kde_config, wallet_release, wallet_remember, autologin, Plan, plan_of,
  kind_path, Disk, Outcome, done, failed, texts_before, put_text, put_back, stepped, restore,
  step_of, run_steps, finish, enable_loaded, enable_plan, enable,
}

pub same_path : (p q : Text) → (p ≡ q) ⊎ (p ≢ q)
same_path p q = elim (Bool-cases (same_bytes p q)) [
  | inl same ↦ inl (same_bytes_sound p q same)
  | inr other ↦ inr (same_bytes_apart p q other)
]

put_text_self :
    (p t : Text) (o : Option Text) (files : Files)
    → lookup p files ≡ o
    → lookup p (put_text p t o files) ≡ some t
put_text_self p t none files h = lookup-store_self p t files
put_text_self p t (some now) files h = elim (Bool-cases (same_bytes now t)) [
  | inl same ↦ rw same (h ∙ ap some (same_bytes_sound now t same))
  | inr other ↦ rw other (lookup-store_self p t files)
]

put_back_self : (p : Text) (t : Option Text) (files : Files) → lookup p (put_back p t files) ≡ t
unfolding is_file
put_back_self p none files = elim (Option-cases (lookup p files)) [
  | inl gone ↦ rw gone gone
  | inr (text, found) ↦ rw found (lookup-erase_self p files)
]
put_back_self p (some t) files = put_text_self p t (lookup p files) files refl

put_text-other :
    (p q t : Text) (o : Option Text) (files : Files)
    → p ≢ q
    → lookup q (put_text p t o files) ≡ lookup q files
put_text-other p q t none files n = lookup-store_other p q t files n
put_text-other p q t (some now) files n =
    if_cases (λ (f : Files). lookup q f ≡ lookup q files) (same_bytes now t) _ _ (λ e. refl)
      (λ e. lookup-store_other p q t files n)

put_back-other :
    (p q : Text) (t : Option Text) (files : Files)
    → p ≢ q
    → lookup q (put_back p t files) ≡ lookup q files
put_back-other p q none files n =
    if_cases (λ (f : Files). lookup q f ≡ lookup q files) (is_file files p) _ _
      (λ e. lookup-erase_other p q files n) (λ e. refl)
put_back-other p q (some t) files n = put_text-other p q t (lookup p files) files n

-- A path of the plan.
abbrev IsPlanned : Text → Plan → Type 0
IsPlanned q [] = ⊥
IsPlanned q ((service, kind) ∷ plan) = (kind_path service kind ≡ q) ⊎ IsPlanned q plan

-- Files that differ only at the plan's paths.
abbrev IsWithin : Plan → Files → Files → Type 0
IsWithin plan files files' = (q : Text) → IsPlanned q plan ⊎ (lookup q files' ≡ lookup q files)

put_back-IsWithin :
    (service : Text) (kind : Kind) (plan : Plan) (files files' : Files)
    → IsWithin ((service, kind) ∷ plan) files files'
    → IsWithin plan files
        (put_back (kind_path service kind) (lookup (kind_path service kind) files) files')
put_back-IsWithin service kind plan files files' h q = elim (same_path (kind_path service kind) q) [
  | inl same ↦ inr (
      subst
        (λ (x : Text).
          lookup x
            (put_back (kind_path service kind) (lookup (kind_path service kind) files) files')
          ≡ lookup x files)
        same
        (put_back_self (kind_path service kind) (lookup (kind_path service kind) files) files'))
  | inr other ↦ elim (h q) [
    | inl planned ↦ elim planned [ inl here ↦ absurd (other here) | inr later ↦ inl later ]
    | inr kept ↦ inr (
        put_back-other (kind_path service kind) q (lookup (kind_path service kind) files) files'
          other
        ∙ kept)
  ]
]

restore-texts_before :
    (plan : Plan) (files files' : Files)
    → IsWithin plan files files'
    → (q : Text) → lookup q (restore (texts_before files plan) files') ≡ lookup q files
unfolding restore texts_before
restore-texts_before [] files files' h q = elim (h q) [ inl wrong ↦ absurd wrong | inr kept ↦ kept ]
restore-texts_before ((service, kind) ∷ plan) files files' h q =
    restore-texts_before plan files
      (put_back (kind_path service kind) (lookup (kind_path service kind) files) files')
      (put_back-IsWithin service kind plan files files' h) q

module _ (hash : Text → Text) where
  step_of-IsFramed :
      (target : Text) (user : Option Text) (service : Text) (kind : Kind) (w : Work)
      → IsFramed (kind_path service kind) w (step_of hash target user service kind w)
  unfolding step_of kind_path
  step_of-IsFramed target user service insert w = enable_insert-IsFramed hash service target w
  step_of-IsFramed target user service own w = enable_own-IsFramed hash service target w
  step_of-IsFramed target user service kde_config w = enable_kde_config-IsFramed hash target w
  step_of-IsFramed target user service wallet_release w =
      enable_wallet-IsFramed hash service true target w
  step_of-IsFramed target user service wallet_remember w =
      enable_wallet-IsFramed hash service false target w
  step_of-IsFramed target user service autologin w = enable_autologin-IsFramed hash target user w

  stepped-IsWithin :
      (target : Text) (user : Option Text) (service : Text) (kind : Kind) (plan : Plan) (w : Work)
      (r : Result Work)
      → IsFramed (kind_path service kind) w r
      → ((next : Work) → IsWithin plan next.files (run_steps hash target user plan next).0.files)
      → IsWithin
          ((service, kind) ∷ plan)
          w.files
          (stepped (run_steps hash target user plan) w r).0.files
  stepped-IsWithin target user service kind plan w pam_error h k q = inr refl
  stepped-IsWithin target user service kind plan w (ok next) h k q =
      elim (same_path (kind_path service kind) q) [
        | inl here ↦ inl (inl here)
        | inr other ↦ elim (k next q) [
          | inl planned ↦ inl (inr planned)
          | inr kept ↦ inr (kept ∙ h q other)
        ]
      ]

  run_steps-IsWithin :
      (target : Text) (user : Option Text) (plan : Plan) (w : Work)
      → IsWithin plan w.files (run_steps hash target user plan w).0.files
  unfolding run_steps
  run_steps-IsWithin target user [] w = λ q. inr refl
  run_steps-IsWithin target user ((service, kind) ∷ plan) w =
      stepped-IsWithin target user service kind plan w (step_of hash target user service kind w)
        (step_of-IsFramed target user service kind w)
        (λ next. run_steps-IsWithin target user plan next)

  -- On disk as it was.
  abbrev pub IsAsBefore : Disk → Outcome → Type 0
  IsAsBefore d (done d') = Unit
  IsAsBefore d (failed d') =
      ((q : Text) → lookup q d'.files ≡ lookup q d.files) × (d'.saved ≡ d.saved)

  finish-IsAsBefore :
      (plan : Plan) (d : Disk) (r : Work × Bool)
      → IsWithin plan d.files r.0.files
      → IsAsBefore d (finish (texts_before d.files plan) d r)
  finish-IsAsBefore plan d (w, true) h = tt
  finish-IsAsBefore plan d (w, false) h = (restore-texts_before plan d.files w.files h, refl)

  enable_loaded-IsAsBefore :
      (target : Text) (user : Option Text) (d : Disk) (plan : Plan) (state : Option (Store Entry))
      → IsAsBefore d (enable_loaded hash target user d plan state)
  enable_loaded-IsAsBefore target user d plan none = (λ q. refl, refl)
  enable_loaded-IsAsBefore target user d plan (some state) =
      finish-IsAsBefore plan d
        (run_steps hash target user plan (record { files = d.files; state = state }))
        (run_steps-IsWithin target user plan (record { files = d.files; state = state }))

  enable_plan-IsAsBefore :
      (target : Text) (user : Option Text) (d : Disk) (p : Result Plan)
      → IsAsBefore d (enable_plan hash target user d p)
  enable_plan-IsAsBefore target user d pam_error = (λ q. refl, refl)
  enable_plan-IsAsBefore target user d (ok []) = (λ q. refl, refl)
  enable_plan-IsAsBefore target user d (ok (entry ∷ plan)) =
      enable_loaded-IsAsBefore target user d (entry ∷ plan) d.saved

  -- Whatever target is enabled, for whatever user and on whatever files: where `enable` fails, after any number of
  -- its steps, every file is what it was before the call, present or absent, and so is the saved manifest.
  pub enable-IsAsBefore :
      (target : Text) (user : Option Text) (d d' : Disk)
      → enable hash target user d ≡ failed d'
      → ((q : Text) → lookup q d'.files ≡ lookup q d.files) × (d'.saved ≡ d.saved)
  unfolding enable
  enable-IsAsBefore target user d d' e =
      subst (IsAsBefore d) e (enable_plan-IsAsBefore target user d (plan_of d.files target))
