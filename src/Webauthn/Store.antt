-- ===== src/Webauthn/Store.antt =====
-- The credential store (linux-hello/src/webauthn/store.py, class CredentialStore): what the file
-- holds, and what an object has read of it. The file is `corrupt` when it cannot be read or has
-- another version. Operations hold the lock, so each is one step; failing writes are not modelled.
-- `algorithm` is always -7 and left out; times are natural numbers.
pub mod Counted
pub mod Counters
pub mod Finding
mod Tests
use Prim.Native.String.{String}
use text.Mathlib.Text.{◌==◌ as str_eq}
use linux_hello.Prelude.{
  ℕ, ◌+◌, Bool, true, false, ◌&&◌, not, Option, none, some, List, [], ◌∷◌, ◌++◌, leb, ◌==◌,
  if◌then◌else◌, length,
}
use linux_hello.Prelude.Bytes.{Bytes, same_bytes}

pub record Credential : Type 0 where
  pub credential_id : Bytes
  pub rp_id : String
  pub rp_name : String
  pub user_handle : Bytes
  pub user_name : String
  pub user_display_name : String
  pub cose_public_key : Bytes
  pub key_ref : String
  pub sign_count : ℕ
  pub resident : Bool
  pub cred_protect : ℕ
  pub created_at : ℕ

pub data Disk : Type 0 where
  absent corrupt : Disk
  stored : List Credential → Disk

pub record Store : Type 0 where
  pub disk : Disk
  pub credentials : List Credential

-- A value, or StoreError.
pub data Answer {ℓ} (A : Type ℓ) : Type ℓ where
  ok : A → Answer A
  store_error : Answer A

-- `load`, and what follows it unless it raises.
abbrev pub after_load {ℓ} :
    {A : Type ℓ} → Disk → (Store → Store × Answer A) → Store → Store × Answer A
after_load absent f s = f (record s { credentials = [] })
after_load corrupt f s = (s, store_error)
after_load (stored cs) f s = f (record s { credentials = cs })

unfoldable pub load : Store → Store × Answer {0} Unit
load s = after_load s.disk (λ t. (t, ok tt)) s

unfoldable pub save : Store → Store
save s = record s { disk = stored s.credentials }

unfoldable pub is_replaced : Credential → Credential → Bool
is_replaced new c = str_eq c.rp_id new.rp_id && same_bytes c.user_handle new.user_handle

-- The credentials that a new one leaves in place.
unfoldable pub without_replaced : Credential → List Credential → List Credential
without_replaced new [] = []
without_replaced new (c ∷ cs) =
    let rest = without_replaced new cs in if is_replaced new c then rest else c ∷ rest

unfoldable pub add : Credential → Store → Store × Answer {0} Unit
add new s =
    after_load s.disk
      (λ t.
        (save (record t { credentials = without_replaced new t.credentials ++ new ∷ [] }), ok tt))
      s

unfoldable pub find_by_id : Bytes → List Credential → Option Credential
find_by_id id [] = none
find_by_id id (c ∷ cs) = if same_bytes c.credential_id id then some c else find_by_id id cs

-- The tests of `find_for_rp`: in the allow list, or resident where there is none.
unfoldable pub is_allowed : Bytes → List Bytes → Bool
is_allowed id [] = false
is_allowed id (a ∷ allowed) = if same_bytes a id then true else is_allowed id allowed

unfoldable pub is_match : String → Option (List Bytes) → Credential → Bool
is_match rp_id none c = str_eq c.rp_id rp_id && c.resident
is_match rp_id (some allowed) c = str_eq c.rp_id rp_id && is_allowed c.credential_id allowed

unfoldable pub matches : String → Option (List Bytes) → List Credential → List Credential
matches rp_id allow_ids [] = []
matches rp_id allow_ids (c ∷ cs) =
    let rest = matches rp_id allow_ids cs in if is_match rp_id allow_ids c then c ∷ rest else rest

-- sorted(..., key=created_at, reverse=True), which keeps the order of equal times.
unfoldable pub insert_newest : Credential → List Credential → List Credential
insert_newest c [] = c ∷ []
insert_newest c (d ∷ ds) =
    let rest = insert_newest c ds in if leb d.created_at c.created_at then c ∷ d ∷ ds else d ∷ rest

unfoldable pub newest_first : List Credential → List Credential
newest_first [] = []
newest_first (c ∷ cs) = insert_newest c (newest_first cs)

unfoldable pub find_for_rp : String → Option (List Bytes) → Store → List Credential
find_for_rp rp_id allow_ids s = newest_first (matches rp_id allow_ids s.credentials)

-- credential.sign_count += 1 of the credential that `find_by_id` gives.
unfoldable pub bump : Bytes → List Credential → List Credential
bump id [] = []
bump id (c ∷ cs) =
    let rest = bump id cs in
    if same_bytes c.credential_id id
    then record c { sign_count = c.sign_count + 1 } ∷ cs
    else c ∷ rest

abbrev pub bump_found : Bytes → Option Credential → Store → Store × Answer ℕ
bump_found id none t = (t, store_error)
bump_found id (some c) t =
    (save (record t { credentials = bump id t.credentials }), ok (c.sign_count + 1))

unfoldable pub increment_counter : Bytes → Store → Store × Answer ℕ
increment_counter id s = after_load s.disk (λ t. bump_found id (find_by_id id t.credentials) t) s

unfoldable pub without_id : Bytes → List Credential → List Credential
without_id id [] = []
without_id id (c ∷ cs) =
    let rest = without_id id cs in if same_bytes c.credential_id id then rest else c ∷ rest

unfoldable pub remove : Bytes → Store → Store × Answer Bool
remove id s =
    after_load s.disk
      (λ t.
        let kept = record t { credentials = without_id id t.credentials } in
        if length kept.credentials == length t.credentials
        then (kept, ok false)
        else (save kept, ok true))
      s

unfoldable pub destroy_all : Store → Store
destroy_all s = record s { disk = absent; credentials = [] }
