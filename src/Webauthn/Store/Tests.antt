-- ===== src/Webauthn/Store/Tests.antt =====
-- The theorems about linux-hello/src/webauthn/store.py at concrete stores.
use Prim.Native.String.{String}
use linux_hello.Prelude.{ℕ, ◌≡◌, refl, inl, true, List, [], ◌∷◌, arith}
use linux_hello.Prelude.Bytes.{Bytes, same_bytes}
use linux_hello.Webauthn.Store.{
  Credential, stored, add, save, increment_counter, find_by_id, bump, remove, without_id,
  without_replaced, is_replaced,
}
use linux_hello.Webauthn.Store.Counters.{
  Call, increments, adds, removes, Above, call, counters, counters-Above,
}

abbrev passkey : Bytes → String → ℕ → ℕ → Credential
passkey id rp count at = record {
  credential_id = id;
  rp_id = rp;
  rp_name = "Shop";
  user_handle = 7 ∷ id;
  user_name = "ann";
  user_display_name = "Ann";
  cose_public_key = [];
  key_ref = "k";
  sign_count = count;
  resident = true;
  cred_protect = 1;
  created_at = at;
}

abbrev first : Credential
first = passkey (1 ∷ []) "shop.example" 4 10

abbrev second : Credential
second = passkey (2 ∷ []) "shop.example" 0 20

abbrev history : List (List Credential × Call)
history =
    ([], increments (1 ∷ []))
    ∷ ([], adds second)
    ∷ (first ∷ [], increments (2 ∷ []))
    ∷ ([], increments (1 ∷ []))
    ∷ ([], removes (1 ∷ []))
    ∷ ([], increments (1 ∷ []))
    ∷ []

two_counters : counters (1 ∷ []) history (stored (first ∷ [])) ≡ 5 ∷ 6 ∷ []
unfolding counters call add save increment_counter find_by_id bump remove without_id
    without_replaced is_replaced same_bytes
two_counters = refl

counters-Above_example : Above 4 (counters (1 ∷ []) history (stored (first ∷ [])))
counters-Above_example =
    counters-Above 4 (1 ∷ []) history (stored (first ∷ [])) (inl (refl, omega arith, tt))
      (tt, ((λ e. cc e), (tt, (tt, (tt, (tt, tt))))))
