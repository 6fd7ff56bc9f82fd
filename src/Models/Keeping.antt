-- ===== src/Models/Keeping.antt =====
-- What an operation of linux-hello/src/models.py leaves of every user's models.
use Prim.Native.String.{String}
use text.Mathlib.Text.{◌==◌ as str_eq}
use text.Mathlib.TextEquality.{eq_iff}
use linux_hello.Prelude.{
  ℕ, suc, ◌≤◌, ◌≡◌, refl, ap, inl, inr, Bool, true, false, List, [], ◌∷◌, ◌++◌, arith,
  if◌then◌else◌, Bool-cases, length, ◌==◌, ◌≢◌, All, Any, Selected, ends, keeps, skips,
}
use linux_hello.Prelude.Dict.{get, insert, pop, get-insert, get-pop}
use linux_hello.Models.{
  is_valid_user, Model, stored, Store, ok, contents, load, delete, save, new_model, add, without_id,
  remove,
}

module _ {F : Type 0} where
  pub saved : Store F → String → List (Model F) → Store F
  saved s user [] = pop user s
  saved s user (m ∷ ms) = insert user (stored (m ∷ ms)) s

  save-saved :
      (user : String) (models : List (Model F)) (s s' : Store F)
      → save user models s ≡ ok s'
      → (is_valid_user user ≡ true) × (s' ≡ saved s user models)
  unfolding save delete saved
  save-saved user [] s s' h = ground arith
  save-saved user (m ∷ ms) s s' h = ground arith

  contents-saved :
      (user v : String) (models : List (Model F)) (s : Store F)
      → contents (get v (saved s user models))
        ≡ (if str_eq user v then ok models else contents (get v s))
  unfolding saved
  contents-saved user v [] s = rw get-pop (ground arith)
  contents-saved user v (m ∷ ms) s = rw get-insert (ground arith)

  -- Saving a user's models changes what is loaded for that user, and for nobody else.
  pub load-save :
      (user v : String) (models : List (Model F)) (s s' : Store F)
      → save user models s ≡ ok s'
      → load v s' ≡ (if str_eq user v then ok models else load v s)
  unfolding load
  load-save user v models s s' h =
      let done = save-saved user models s s' h in
      rw (done.1, contents-saved user v models s)
        (ground (arith, done.0, eq_iff user v, ap (λ u. is_valid_user u) refl))

  pub save-total :
      (user : String) (models : List (Model F)) (s : Store F)
      → is_valid_user user ≡ true
      → save user models s ≡ ok (saved s user models)
  unfolding save delete saved
  save-total user [] s h = ground arith
  save-total user (m ∷ ms) s h = ground arith

  pub load-valid :
      (user : String) (models : List (Model F)) (s : Store F)
      → load user s ≡ ok models
      → is_valid_user user ≡ true
  unfolding load
  load-valid user models s h = ground arith

  -- The models of every user are what they were, but that `user` has `models`.
  pub record Replaces (s : Store F) (user : String) (models : List (Model F)) (s' : Store F)
      : Type 0 where
    pub loads : (v : String) → load v s' ≡ (if str_eq user v then ok models else load v s)

  pub save-Replaces :
      (user : String) (models : List (Model F)) (s : Store F)
      → is_valid_user user ≡ true
      → Replaces s user models (saved s user models)
  save-Replaces user models s h = record {
    loads = λ v. load-save user v models s (saved s user models) (save-total user models s h);
  }

  pub same-Replaces :
      (user : String) (models : List (Model F)) (s : Store F)
      → load user s ≡ ok models
      → Replaces s user models s
  same-Replaces user models s h = record { loads = λ v. ground (arith, eq_iff user v, h) }

  -- Where a user's models can be read, `add` succeeds, and appends the model that it returns.
  pub add-Replaces :
      (user : String) (label : List ℕ) (encodings : List (List F)) (now : ℕ) (s : Store F)
      (existing : List (Model F))
      → load user s ≡ ok existing
      → let m = new_model label encodings now existing in
        (s' : Store F) × (add user label encodings now s ≡ ok (s', m))
        × Replaces s user (existing ++ m ∷ []) s'
  unfolding add
  add-Replaces user label encodings now s existing h =
      let valid = load-valid user existing s h in
      let all : List (Model F) = existing ++ new_model label encodings now existing ∷ [] in
      (
        saved s user all,
        rw h (rw (save-total user all s valid) refl),
        save-Replaces user all s valid,
      )

  length-without_id : (i : ℕ) (ms : List (Model F)) → length (without_id i ms) ≤ length ms
  unfolding without_id
  length-without_id i [] = omega arith
  length-without_id i (m ∷ ms) = ground (arith, length-without_id i ms)

  without_id-same :
      (i : ℕ) (ms : List (Model F))
      → length (without_id i ms) ≡ length ms
      → (without_id i ms ≡ ms) × All (λ m. m.id ≢ i) ms
  unfolding without_id
  without_id-same i [] h = (refl, tt)
  without_id-same i (m ∷ ms) h = elim (Bool-cases (m.id == i)) [
    | inl hit ↦
        let short : length (without_id i ms) ≡ suc (length ms) = rw hit at h in
        absurd (omega (arith, short, length-without_id i ms))
    | inr miss ↦
        let same : suc (length (without_id i ms)) ≡ suc (length ms) = rw miss at h in
        let (whole, lacks) = without_id-same i ms (omega (arith, same)) in
        (rw (miss, whole) refl, ((λ e. ground (arith, miss, e)), lacks))
  ]

  without_id-fewer :
      (i : ℕ) (ms : List (Model F)) → length (without_id i ms) ≢ length ms → Any (λ m. m.id ≡ i) ms
  unfolding without_id
  without_id-fewer i [] h = absurd (h refl)
  without_id-fewer i (m ∷ ms) h = elim (Bool-cases (m.id == i)) [
    | inl hit ↦ inl (ground (arith, hit))
    | inr miss ↦ inr (without_id-fewer i ms (λ e. h (rw miss (ap suc e))))
  ]

  without_id-Selected :
      (i : ℕ) (ms : List (Model F)) → Selected (λ m. m.id ≢ i) ms (without_id i ms)
  unfolding without_id
  without_id-Selected i [] = ends
  without_id-Selected i (m ∷ ms) = elim (Bool-cases (m.id == i)) [
    | inl hit ↦ rw hit (skips (λ n. n (ground (arith, hit))) (without_id-Selected i ms))
    | inr miss ↦ rw miss (keeps (λ e. ground (arith, miss, e)) (without_id-Selected i ms))
  ]

  -- What `remove` says and leaves: whether there was a model with the id, and the store itself if not.
  pub data IsRemoved (i : ℕ) (existing : List (Model F)) (s : Store F)
      : Store F × Bool → Type 0 where
    had_one : (s' : Store F) → Any (λ m. m.id ≡ i) existing → IsRemoved i existing s (s', true)
    had_none : All (λ m. m.id ≢ i) existing → IsRemoved i existing s (s, false)

  pub remove_lem :
      (user : String) (i : ℕ) (s : Store F) (existing : List (Model F))
      → load user s ≡ ok existing
      → (s' : Store F) × (found : Bool) × (remove user i s ≡ ok (s', found))
        × Replaces s user (without_id i existing) s'
        × IsRemoved i existing s (s', found)
  unfolding remove
  remove_lem user i s existing h =
      let kept : List (Model F) = without_id i existing in
      let valid = load-valid user existing s h in
      elim (Bool-cases (length kept == length existing)) [
        | inl same ↦
            let (whole, lacks) = without_id-same i existing (ground arith) in
            (
              s,
              false,
              rw h (rw same refl),
              rw whole (same-Replaces user existing s h),
              had_none lacks,
            )
        | inr fewer ↦
            let some_one = without_id-fewer i existing (λ e. ground (arith, fewer, e)) in
            (
              saved s user kept,
              true,
              rw h (rw fewer (rw (save-total user kept s valid) refl)),
              save-Replaces user kept s valid,
              had_one (saved s user kept) some_one,
            )
      ]

  -- Where a user's models can be read, `remove` succeeds. It keeps for the user the models with another id, each
  -- of them, in their order, and for other users all; it says yes if some model had the id, and if none had,
  -- it says no and the store is the same.
  pub remove-Replaces :
      (user : String) (i : ℕ) (s : Store F) (existing : List (Model F))
      → load user s ≡ ok existing
      → (s' : Store F) × (found : Bool) × (kept : List (Model F)) × (remove user i s
          ≡ ok (s', found))
        × Selected (λ m. m.id ≢ i) existing kept
        × Replaces s user kept s'
        × IsRemoved i existing s (s', found)
  remove-Replaces user i s existing h =
      let (s', found, done, replaces, removed) = remove_lem user i s existing h in
      (s', found, without_id i existing, done, without_id-Selected i existing, replaces, removed)
