-- ===== src/Models.antt =====
-- Face model storage (linux-hello/src/models.py). A user's file is an entry of a dictionary: no
-- entry is a file that is not there. Texts are lists of code points; the numbers of an encoding are
-- of an abstract type. Failing system calls and the move of old files are not modelled.
pub mod Names
pub mod Keeping
pub mod Ids
pub mod Operations
pub mod Histories
mod Tests
use Prim.Native.Char.{code}
use Prim.Native.String.{String}
use mathlib.Core.Option
use linux_hello.Prelude.{
  ℕ, ◌+◌, ◌*◌, max, Bool, true, false, not, ◌&&◌, ◌||◌, Option, none, some, List, [], ◌∷◌, ◌++◌,
  leb, ltb, ◌==◌, if◌then◌else◌, is_empty, length, take,
}
use linux_hello.Prelude.Dict.{Dict, get, insert, pop}

abbrev pub codes : String → List ℕ
codes String.[] = []
codes (String.◌∷◌ c s) = code c ∷ codes s

-- [a-z] with re.IGNORECASE: the ASCII letters and U+0130, U+0131, U+017F, U+212A.
unfoldable pub is_letter : ℕ → Bool
is_letter c =
    leb b'a' c && leb c b'z'
    || leb b'A' c && leb c b'Z'
    || c == 0x130
    || c == 0x131
    || c == 0x17F
    || c == 0x212A

-- [a-z_] and [a-z0-9_.-]
unfoldable pub is_first_char : ℕ → Bool
unfolding is_letter
is_first_char c = is_letter c || c == b'_'

unfoldable pub is_name_char : ℕ → Bool
unfolding is_letter
is_name_char c = is_letter c || leb b'0' c && leb c b'9' || c == b'_' || c == b'.' || c == b'-'

-- What `$` at the end of a pattern accepts: the end, or a newline before it.
unfoldable pub at_end : List ℕ → Bool
at_end [] = true
at_end (c ∷ cs) = c == 10 && is_empty cs

-- [a-z0-9_.-]*\$?$
unfoldable pub name_rest : List ℕ → Bool
unfolding at_end is_name_char
name_rest [] = true
name_rest (c ∷ cs) =
    let rest = name_rest cs in
    if is_name_char c then rest else if c == b'$' then at_end cs else at_end (c ∷ cs)

unfoldable pub matches_pattern : List ℕ → Bool
unfolding is_first_char name_rest
matches_pattern [] = false
matches_pattern (c ∷ cs) = is_first_char c && name_rest cs

-- The test of `_path`.
unfoldable pub is_valid_user : String → Bool
unfolding matches_pattern
is_valid_user user = matches_pattern (codes user) && leb (length (codes user)) 256

pub record Model (F : Type 0) : Type 0 where
  pub id : ℕ
  pub label : List ℕ
  pub time : ℕ
  pub encodings : List (List F)

-- A file that is there: a list of models, or something else.
pub data File (F : Type 0) : Type 0 where
  stored : List (Model F) → File F
  corrupt : File F

abbrev pub Store : Type 0 → Type 0
Store F = Dict (File F)

-- A value, or ModelError.
pub data Result {ℓ} (A : Type ℓ) : Type ℓ where
  ok : A → Result A
  model_error : Result A

infixl 5 ◌>>=◌
abbrev pub ◌>>=◌ {ℓ κ} : {A : Type ℓ} {B : Type κ} → Result A → (A → Result B) → Result B
ok a >>= f = f a
model_error >>= f = model_error

module _ {F : Type 0} where
  abbrev contents : Option (File F) → Result (List (Model F))
  contents none = ok []
  contents (some (stored models)) = ok models
  contents (some corrupt) = model_error

  unfoldable pub load : String → Store F → Result (List (Model F))
  load user s = if is_valid_user user then contents (get user s) else model_error

  unfoldable pub delete : String → Store F → Result (Store F)
  delete user s = if is_valid_user user then ok (pop user s) else model_error

  unfoldable pub save : String → List (Model F) → Store F → Result (Store F)
  save user models s =
      if is_valid_user user
      then (if is_empty models then delete user s else ok (insert user (stored models) s))
      else model_error

  unfoldable pub max_id : List (Model F) → ℕ
  max_id [] = 0
  max_id (m ∷ ms) = max m.id (max_id ms)

  unfoldable pub next_id : List (Model F) → ℕ
  next_id [] = 0
  next_id (m ∷ ms) = max_id (m ∷ ms) + 1

-- text.replace(",", "")
unfoldable pub without_commas : List ℕ → List ℕ
without_commas [] = []
without_commas (c ∷ cs) = let rest = without_commas cs in if c == b',' then rest else c ∷ rest

abbrev pub or_text : List ℕ → List ℕ → List ℕ
or_text [] d = d
or_text (c ∷ cs) d = c ∷ cs

-- label.replace(",", "")[:24] or default
unfoldable pub clean_label : List ℕ → List ℕ → List ℕ
clean_label label default = or_text (take 24 (without_commas label)) default

abbrev pub default_label : List ℕ
default_label = codes "Model"

module _ {F : Type 0} where
  unfoldable pub new_model : List ℕ → List (List F) → ℕ → List (Model F) → Model F
  new_model label encodings now existing = record {
    time = now;
    label = clean_label label default_label;
    id = next_id existing;
    encodings = encodings;
  }

  -- The store that `add` leaves, with the model it returns (its caller reads the id alone).
  unfoldable pub add : String → List ℕ → List (List F) → ℕ → Store F → Result (Store F × Model F)
  add user label encodings now s = do
    existing ← load user s
    s' ← save user (existing ++ new_model label encodings now existing ∷ []) s
    ok (s', new_model label encodings now existing)

  -- [m for m in existing if m["id"] != model_id]
  unfoldable pub without_id : ℕ → List (Model F) → List (Model F)
  without_id i [] = []
  without_id i (m ∷ ms) = let rest = without_id i ms in if m.id == i then rest else m ∷ rest

  unfoldable pub remove : String → ℕ → Store F → Result (Store F × Bool)
  remove user i s = do
    existing ← load user s
    if length (without_id i existing) == length existing
        then ok (s, false)
        else do s' ← save user (without_id i existing) s; ok (s', true)

  -- The loop of `rename`: none if no model has the id.
  unfoldable pub relabel : ℕ → List ℕ → List (Model F) → Option (List (Model F))
  relabel i label [] = none
  relabel i label (m ∷ ms) =
      let later = Option.map (λ rest. m ∷ rest) (relabel i label ms) in
      if m.id == i then some (record m { label = clean_label label m.label } ∷ ms) else later

  abbrev save_relabelled : String → Store F → Option (List (Model F)) → Result (Store F × Bool)
  save_relabelled user s none = ok (s, false)
  save_relabelled user s (some models) = do s' ← save user models s; ok (s', true)

  unfoldable pub rename : String → ℕ → List ℕ → Store F → Result (Store F × Bool)
  rename user i label s = do
    existing ← load user s
    save_relabelled user s (relabel i label existing)
