-- ===== src/Models/Histories.antt =====
-- Sequences of calls of linux-hello/src/models.py.
use Prim.Native.String.{String}
use text.Mathlib.Text.{◌==◌ as str_eq}
use linux_hello.Prelude.{ℕ, ◌≡◌, refl, ◌⊎◌, inl, inr, List, [], ◌∷◌, arith, Bool-cases}
use linux_hello.Models.{
  Model, Store, Result, ok, model_error, load, add, without_id, remove, rename,
}
use linux_hello.Models.Keeping.{Replaces, add-Replaces, remove_lem}
use linux_hello.Models.Ids.{WellFormed}
use linux_hello.Models.Operations.{
  IsValid, WellFormed-add, WellFormed-without_id, Distinct-ids, relabel-Relabelled, rename-Replaces,
}

Result-cases : {A : Type 0} (r : Result A) → ((a : A) × (r ≡ ok a)) ⊎ (r ≡ model_error)
Result-cases (ok a) = inl (a, refl)
Result-cases model_error = inr refl

pub data Call (F : Type 0) : Type 0 where
  adds : String → List ℕ → List (List F) → ℕ → Call F
  removes : String → ℕ → Call F
  renames : String → ℕ → List ℕ → Call F

module _ {F : Type 0} where
  -- `add`, `remove` and `rename` raise before they write, so a history goes on from the store it had.
  abbrev stays : {A : Type 0} → Store F → Result (Store F × A) → Store F
  stays s (ok (s', a)) = s'
  stays s model_error = s

  unfoldable pub call : Call F → Store F → Store F
  call (adds user label encodings now) s = stays s (add user label encodings now s)
  call (removes user i) s = stays s (remove user i s)
  call (renames user i label) s = stays s (rename user i label s)

  unfoldable pub calls : List (Call F) → Store F → Store F
  calls [] s = s
  calls (c ∷ cs) s = calls cs (call c s)

  Replaces-IsValid :
      (user : String) (ms : List (Model F)) (s s' : Store F)
      → Replaces s user ms s'
      → WellFormed ms
      → IsValid s
      → IsValid s'
  Replaces-IsValid user ms s s' r w v = record {
    at = λ u ns e. elim (Bool-cases (str_eq user u)) [
      | inl same ↦
          let loaded : ok ms ≡ ok ns = ground (arith, r.loads u) in
          let same_list : ms ≡ ns = cc loaded in rw (← same_list) w
      | inr other ↦ let before : load u s ≡ ok ns = ground (arith, r.loads u) in v.at u ns before
    ];
  }

  add-error :
      (user : String) (label : List ℕ) (encodings : List (List F)) (now : ℕ) (s : Store F)
      → load user s ≡ model_error
      → add user label encodings now s ≡ model_error
  unfolding add
  add-error user label encodings now s e = rw e refl

  remove-error :
      (user : String) (i : ℕ) (s : Store F)
      → load user s ≡ model_error
      → remove user i s ≡ model_error
  unfolding remove
  remove-error user i s e = rw e refl

  rename-error :
      (user : String) (i : ℕ) (label : List ℕ) (s : Store F)
      → load user s ≡ model_error
      → rename user i label s ≡ model_error
  unfolding rename
  rename-error user i label s e = rw e refl

  call-IsValid : (c : Call F) (s : Store F) → IsValid s → IsValid (call c s)
  unfolding call
  call-IsValid (adds user label encodings now) s v = elim (Result-cases (load user s)) [
    | inr bad ↦ rw (add-error user label encodings now s bad) v
    | inl (ms, e) ↦
        let (s', done, r) = add-Replaces user label encodings now s ms e in
        rw done (
          Replaces-IsValid user _ s s' r (WellFormed-add label encodings now ms (v.at user ms e)) v)
  ]
  call-IsValid (removes user i) s v = elim (Result-cases (load user s)) [
    | inr bad ↦ rw (remove-error user i s bad) v
    | inl (ms, e) ↦
        let (s', found, done, r, _) = remove_lem user i s ms e in
        rw done (
          Replaces-IsValid user (without_id i ms) s s' r
            (WellFormed-without_id i ms (v.at user ms e)) v)
  ]
  call-IsValid (renames user i label) s v = elim (Result-cases (load user s)) [
    | inr bad ↦ rw (rename-error user i label s bad) v
    | inl (ms, e) ↦ elim (rename-Replaces user i label s ms e) [
      | inl (done, _) ↦ rw done v
      | inr (s', ns, done, found, same, r) ↦
          let w = v.at user ms e in
          let kept = relabel-Relabelled i label ms ns found in
          rw done (
            Replaces-IsValid user ns s s' r
              (record {
                distinct = Distinct-ids ms ns same.ids w.distinct;
                labels = kept.labels w.labels;
              })
              v)
    ]
  ]

  -- Whatever calls are made from a valid store, each user's models have distinct ids, and labels
  -- of 1 to 24 characters without a comma.
  pub calls-IsValid : (cs : List (Call F)) (s : Store F) → IsValid s → IsValid (calls cs s)
  unfolding calls
  calls-IsValid [] s v = v
  calls-IsValid (c ∷ cs) s v = calls-IsValid cs (call c s) (call-IsValid c s v)
