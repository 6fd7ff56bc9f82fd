-- ===== src/Models/Tests.antt =====
-- The theorems about linux-hello/src/models.py at concrete stores.
use Prim.Native.String.{String}
use linux_hello.Prelude.{
  ℕ, ◌≡◌, ◌≢◌, Selected, refl, Bool, true, List, [], ◌∷◌, inl, inr, Bool-cases,
}
use linux_hello.Models.{
  codes, is_valid_user, Model, Store, stored, ok, model_error, load, add, new_model, remove,
}
use linux_hello.Models.Names.{IsEntry, is_valid_user-IsEntry}
use linux_hello.Models.Keeping.{Replaces, IsRemoved, add-Replaces, remove-Replaces}
use linux_hello.Models.Operations.{IsValid}
use linux_hello.Models.Histories.{Call, adds, removes, renames, calls, calls-IsValid}
use linux_hello.Prelude.Dict.{get}

ann_is_valid : is_valid_user "ann" ≡ true
unfolding is_valid_user
ann_is_valid = refl

is_valid_user-IsEntry_example : IsEntry (codes "ann")
is_valid_user-IsEntry_example = is_valid_user-IsEntry "ann" ann_is_valid

-- `$` also matches before a newline at the end.
newline_passes : is_valid_user "ann\n" ≡ true
unfolding is_valid_user
newline_passes = refl

abbrev face : Model ℕ
face = record { id = 4; label = codes "work"; time = 10; encodings = (1 ∷ 2 ∷ []) ∷ [] }

abbrev store : Store ℕ
store = ("ann", stored (face ∷ [])) ∷ []

ann_loads : load "ann" store ≡ ok (face ∷ [])
unfolding load is_valid_user get
ann_loads = refl

add-Replaces_example :
    let m = new_model (codes "a,b") [] 20 (face ∷ []) in
    (s' : Store ℕ) × (add "ann" (codes "a,b") [] 20 store ≡ ok (s', m))
    × Replaces store "ann" (face ∷ m ∷ []) s'
add-Replaces_example = add-Replaces "ann" (codes "a,b") [] 20 store (face ∷ []) ann_loads

remove-Replaces_example :
    (s' : Store ℕ) × (found : Bool) × (kept : List (Model ℕ)) × (remove "ann" 4 store
      ≡ ok (s', found))
    × Selected (λ m. m.id ≢ 4) (face ∷ []) kept
    × Replaces store "ann" kept s'
    × IsRemoved 4 (face ∷ []) store (s', found)
remove-Replaces_example = remove-Replaces "ann" 4 store (face ∷ []) ann_loads

load-empty : (user : String) (ms : List (Model ℕ)) → load user [] ≡ ok ms → ms ≡ []
unfolding load get
load-empty user ms e = elim (Bool-cases (is_valid_user user)) [
  | inl valid ↦ let same : ok [] ≡ ok ms = rw valid at e in cc same
  | inr wrong ↦ let none_such : model_error ≡ ok ms = rw wrong at e in cc none_such
]

empty-IsValid : IsValid {F = ℕ} []
empty-IsValid = record {
  at = λ user ms e. rw (load-empty user ms e) (record { distinct = tt; labels = tt });
}

abbrev history : List (Call ℕ)
history = adds "ann" (codes "work") [] 1 ∷ renames "ann" 0 (codes ",") ∷ removes "ann" 0 ∷ []

calls-IsValid_example : IsValid (calls history [])
calls-IsValid_example = calls-IsValid history [] empty-IsValid
