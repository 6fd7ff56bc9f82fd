-- ===== src/Webauthn/Store/Finding.antt =====
-- What `find_for_rp` of linux-hello/src/webauthn/store.py gives.
use Prim.Native.String.{String}
use mathlib.Core.List.{Perm}
use mathlib.Core.List.Perm
use linux_hello.Prelude.{◌≤◌, ◌≡◌, true, Option, none, some, List, [], ◌∷◌, All, Any}
use linux_hello.Prelude.Bytes.{Bytes}
use linux_hello.Webauthn.Store.{Credential, Store}

-- Each credential is at least as new as those after it.
abbrev pub NewestFirst : List Credential → Type 0
NewestFirst [] = Unit
NewestFirst (c ∷ cs) = All (λ d. d.created_at ≤ c.created_at) cs × NewestFirst cs

-- The party's own, and in the list of allowed ids, or resident where there is no such list.
pub record IsUsable (rp_id : String) (allow_ids : Option (List Bytes)) (c : Credential)
    : Type 0 where
  pub same_party : c.rp_id ≡ rp_id
  pub resident : allow_ids ≡ none → c.resident ≡ true
  pub listed : (ids : List Bytes) → allow_ids ≡ some ids → Any (λ id. id ≡ c.credential_id) ids
