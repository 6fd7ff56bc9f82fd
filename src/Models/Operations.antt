-- ===== src/Models/Operations.antt =====
-- Well-formed models, and the operations of linux-hello/src/models.py on them.
use Prim.Native.String.{String}
use mathlib.Core.Option
use linux_hello.Prelude.{
  ℕ, ◌≡◌, refl, sym, ap, ◌∙◌, ◌⊎◌, inl, inr, true, false, none, some, List, [], ◌∷◌, ◌++◌,
  Bool-cases, Option-cases, ◌==◌, All, All-append, map,
}
use linux_hello.Models.{
  Model, Store, ok, load, new_model, without_id, relabel, rename, clean_label, default_label,
}
use linux_hello.Models.Keeping.{Replaces, saved, save-total, load-valid, save-Replaces}
use linux_hello.Models.Ids.{
  IsLabel, Lacks, Distinct, WellFormed, Distinct-append, next_id-Lacks, All-without_id,
  Distinct-without_id, clean_label-IsLabel, default_label-IsLabel,
}

module _ {F : Type 0} where
  pub record IsValid (s : Store F) : Type 0 where
    pub at : (user : String) (ms : List (Model F)) → load user s ≡ ok ms → WellFormed ms

  pub WellFormed-add :
      (label : List ℕ) (encodings : List (List F)) (now : ℕ) (ms : List (Model F))
      → WellFormed ms
      → WellFormed (ms ++ new_model label encodings now ms ∷ [])
  unfolding new_model
  WellFormed-add label encodings now ms w = record {
    distinct = Distinct-append ms _ w.distinct (next_id-Lacks ms);
    labels =
        All-append (λ m. IsLabel m.label) ms _ w.labels
          (clean_label-IsLabel label default_label default_label-IsLabel, tt);
  }

  pub WellFormed-without_id :
      (i : ℕ) (ms : List (Model F)) → WellFormed ms → WellFormed (without_id i ms)
  WellFormed-without_id i ms w = record {
    distinct = Distinct-without_id i ms w.distinct;
    labels = All-without_id (λ m. IsLabel m.label) i ms w.labels;
  }

  -- What relabelling keeps: the ids and the encodings, in order.
  pub record SameFaces (ms ns : List (Model F)) : Type 0 where
    pub ids : map (λ m. m.id) ns ≡ map (λ m. m.id) ms
    pub faces : map (λ m. m.encodings) ns ≡ map (λ m. m.encodings) ms

  Lacks-ids :
      (i : ℕ) (ms ns : List (Model F))
      → map (λ m. m.id) ns ≡ map (λ m. m.id) ms
      → Lacks i ms
      → Lacks i ns
  Lacks-ids i [] [] e h = tt
  Lacks-ids i [] (n ∷ ns) e h = cc
  Lacks-ids i (m ∷ ms) [] e h = cc
  Lacks-ids i (m ∷ ms) (n ∷ ns) e h =
      let same : n.id ≡ m.id = cc e in
      let rest : map (λ m. m.id) ns ≡ map (λ m. m.id) ms = cc e in
      ((λ k. h.0 (sym same ∙ k)), Lacks-ids i ms ns rest h.1)

  pub Distinct-ids :
      (ms ns : List (Model F)) → map (λ m. m.id) ns ≡ map (λ m. m.id) ms → Distinct ms → Distinct ns
  Distinct-ids [] [] e d = tt
  Distinct-ids [] (n ∷ ns) e d = cc
  Distinct-ids (m ∷ ms) [] e d = cc
  Distinct-ids (m ∷ ms) (n ∷ ns) e d =
      let same : n.id ≡ m.id = cc e in
      let rest : map (λ m. m.id) ns ≡ map (λ m. m.id) ms = cc e in
      (rw same (Lacks-ids m.id ms ns rest d.0), Distinct-ids ms ns rest d.1)

  -- What `relabel` leaves, if a model has the id.
  pub record Relabelled (ms ns : List (Model F)) : Type 0 where
    pub faces : SameFaces ms ns
    pub labels : All (λ m. IsLabel m.label) ms → All (λ m. IsLabel m.label) ns

  pub relabel-Relabelled :
      (i : ℕ) (label : List ℕ) (ms ns : List (Model F))
      → relabel i label ms ≡ some ns
      → Relabelled ms ns
  unfolding relabel
  relabel-Relabelled i label [] ns e = cc e
  relabel-Relabelled i label (m ∷ ms) ns e = elim (Bool-cases (m.id == i)) [
    | inl hit ↦
        let here : some (record m { label = clean_label label m.label } ∷ ms) ≡ some ns =
          rw hit at e in
        let same : (record m { label = clean_label label m.label } ∷ ms) ≡ ns = cc here in
        rw (← same) (record {
          faces = record { ids = refl; faces = refl };
          labels = λ h. (clean_label-IsLabel label m.label h.0, h.1);
        })
    | inr miss ↦
        let later : Option.map (λ rest. m ∷ rest) (relabel i label ms) ≡ some ns = rw miss at e in
        elim (Option-cases (relabel i label ms)) [
          | inl gone ↦
              let nothing : Option.map (λ rest. m ∷ rest) none ≡ some ns = rw gone at later in
              cc nothing
          | inr (rest, found) ↦
              let there : some (m ∷ rest) ≡ some ns = rw found at later in
              let same : (m ∷ rest) ≡ ns = cc there in
              let kept = relabel-Relabelled i label ms rest found in
              rw (← same) (record {
                faces = record {
                  ids = ap (λ l. m.id ∷ l) kept.faces.ids;
                  faces = ap (λ l. m.encodings ∷ l) kept.faces.faces;
                };
                labels = λ h. (h.0, kept.labels h.1);
              })
        ]
  ]

  -- Where a user's models can be read, `rename` succeeds. Either it says that no model has the id
  -- and the store is unchanged, or the user's models are the same faces under the same ids.
  pub rename-Replaces :
      (user : String) (i : ℕ) (label : List ℕ) (s : Store F) (existing : List (Model F))
      → load user s ≡ ok existing
      → ((rename user i label s ≡ ok (s, false)) × (relabel i label existing ≡ none))
        ⊎ ((s' : Store F) × (ms : List (Model F)) × (rename user i label s ≡ ok (s', true))
            × (relabel i label existing ≡ some ms)
            × SameFaces existing ms
            × Replaces s user ms s')
  unfolding rename
  rename-Replaces user i label s existing h =
      let valid = load-valid user existing s h in
      elim (Option-cases (relabel i label existing)) [
        | inl gone ↦ inl (rw h (rw gone refl), gone)
        | inr (ms, found) ↦ inr (
          saved s user ms,
          ms,
          rw h (rw found (rw (save-total user ms s valid) refl)),
          found,
          (relabel-Relabelled i label existing ms found).faces,
          save-Replaces user ms s valid,
        )
      ]
