-- ===== src/Daemon/Confirmed/Pausing.antt =====
-- Missed confirmations in a row (`_confirm_missed` and the test of `confirm_paused` in
-- linux-hello/src/daemon/manager.py).
use Prim.Native.String.{String}
use linux_hello.Prelude.{
  ℕ, ◌+◌, ◌-◌, ◌*◌, ◌^◌, ◌≤◌, ◌<◌, min, ◌≡◌, refl, ap, ◌∙◌, true, not, ◌&&◌, Option, none, some,
  List, [], ◌∷◌, arith, if_cases, ltb, ◌==◌, length,
}
use linux_hello.Prelude.Dict.{get, insert, pop, get-insert_self, get-pop_self}
use linux_hello.Daemon.Results.{confirm_paused, not_local, no_face_model}
use linux_hello.Daemon.Manager.{
  Manager, Outcome, done, raised, after, recent, pause_length, paused, confirm_missed, or_else,
  confirm_pause_seconds, confirm_pause_max_seconds,
}
use linux_hello.Daemon.Confirmed.{
  seconds_left, failed, permission_denied, invalid_args, unknown, Reply, Request, Next, replies,
  answer, unless_paused, request, bad_user, is_uid,
}

length-recent : (now : ℕ) (ts : List ℕ) → length (recent now ts) ≤ length ts
unfolding recent
length-recent now [] = omega arith
length-recent now (t ∷ ts) = ground (arith, length-recent now ts)

-- One miss, with the earlier ones known.
first_miss :
    (t : ℕ) (user : String) (m : Manager)
    → get user m.confirm_misses ≡ none
    → confirm_missed t user m
      ≡ done (record m { confirm_misses = insert user (t ∷ []) m.confirm_misses })
unfolding confirm_missed recent
first_miss t user m e = simp e refl

second_miss :
    (t u : ℕ) (user : String) (m : Manager)
    → get user m.confirm_misses ≡ some (t ∷ [])
    → u < t + confirm_pause_seconds
    → confirm_missed u user m
      ≡ done (record m { confirm_misses = insert user (t ∷ u ∷ []) m.confirm_misses })
unfolding confirm_missed recent
second_miss t u user m e h =
    let near : ltb u (t + confirm_pause_seconds) ≡ true = ground arith in simp e (simp near refl)

third_miss :
    (t u v p : ℕ) (user : String) (m : Manager)
    → get user m.confirm_misses ≡ some (t ∷ u ∷ [])
    → or_else (get user m.confirm_pauses) 0 ≡ p
    → v < t + confirm_pause_seconds
    → v < u + confirm_pause_seconds
    → confirm_missed v user m
      ≡ paused (pause_length p) p v user (record m { confirm_misses = pop user m.confirm_misses })
unfolding confirm_missed recent
third_miss t u v p user m e q h k =
    let near : ltb v (t + confirm_pause_seconds) ≡ true = ground arith in
    let near' : ltb v (u + confirm_pause_seconds) ≡ true = ground arith in
    simp e (simp (near, near') (simp q refl))

-- Three misses within a minute.
abbrev pub thrice : ℕ → ℕ → ℕ → String → Manager → Outcome
thrice t u v user m =
    confirm_missed v user (after (confirm_missed u user (after (confirm_missed t user m))))

thrice_lem :
    (t u v p : ℕ) (user : String) (m : Manager)
    → get user m.confirm_misses ≡ none
    → or_else (get user m.confirm_pauses) 0 ≡ p
    → t ≤ u
    → u ≤ v
    → v < t + confirm_pause_seconds
    → thrice t u v user m
      ≡ paused (pause_length p) p v user (record m {
        confirm_misses =
            pop user (insert user (t ∷ u ∷ []) (insert user (t ∷ []) m.confirm_misses));
      })
thrice_lem t u v p user m e q h k l =
    let one : Manager = record m { confirm_misses = insert user (t ∷ []) m.confirm_misses } in
    let two : Manager = record one {
      confirm_misses = insert user (t ∷ u ∷ []) one.confirm_misses;
    } in
    rw
      (
        first_miss t user m e,
        second_miss t u user one (get-insert_self user (t ∷ []) m.confirm_misses) (omega arith),
      )
      (third_miss t u v p user two (get-insert_self user (t ∷ u ∷ []) one.confirm_misses) q l
        (omega arith))

-- After three misses of a user within a minute, the first of a new row, face is paused for that
-- user for a minute doubled once for each pause before, up to an hour; the pause is counted, and the
-- row starts anew. The hypothesis on the count of pauses keeps the product a float.
pub thrice-pauses :
    (t u v p : ℕ) (user : String) (m : Manager)
    → get user m.confirm_misses ≡ none
    → or_else (get user m.confirm_pauses) 0 ≡ p
    → p < 1024
    → t ≤ u
    → u ≤ v
    → v < t + confirm_pause_seconds
    → let m' = after (thrice t u v user m) in
      (get user m'.confirm_paused
        ≡ some (v + min (confirm_pause_seconds * 2 ^ p) confirm_pause_max_seconds))
      × (get user m'.confirm_pauses ≡ some (p + 1))
      × (get user m'.confirm_misses ≡ none)
thrice-pauses t u v p user m e q few h k l =
    let length_of : pause_length p
        ≡ some (min (confirm_pause_seconds * 2 ^ p) confirm_pause_max_seconds) =
      unfold pause_length in ground arith in
    rw (thrice_lem t u v p user m e q h k l)
      (rw length_of (get-insert_self user _ _, get-insert_self user _ _, get-pop_self user _))

-- From the 1024th pause in a row on, three misses within a minute raise in place of pausing: no
-- pause is entered or counted, and the row starts anew.
pub thrice-overflow :
    (t u v p : ℕ) (user : String) (m : Manager)
    → get user m.confirm_misses ≡ none
    → or_else (get user m.confirm_pauses) 0 ≡ p
    → 1024 ≤ p
    → t ≤ u
    → u ≤ v
    → v < t + confirm_pause_seconds
    → (o : Manager) × (thrice t u v user m ≡ raised o)
      × (o.confirm_paused ≡ m.confirm_paused)
      × (o.confirm_pauses ≡ m.confirm_pauses)
      × (get user o.confirm_misses ≡ none)
thrice-overflow t u v p user m e q many h k l =
    let length_of : pause_length p ≡ none = unfold pause_length in ground arith in
    let left : Manager = record m {
      confirm_misses = pop user (insert user (t ∷ u ∷ []) (insert user (t ∷ []) m.confirm_misses));
    } in
    let run : thrice t u v user m ≡ raised left =
      thrice_lem t u v p user m e q h k l ∙ ap (λ s. paused s p v user left) length_of in
    (left, run, refl, refl, get-pop_self user _)

unless_paused-refuses :
    (now until : ℕ) (r : Request) (o : Option ℕ) (m : Manager)
    → o ≡ some until
    → now < until
    → unless_paused now r o m ≡ (m, replies (answer confirm_paused (seconds_left (until - now))))
unfolding unless_paused
unless_paused-refuses now until r none m e h = cc
unless_paused-refuses now until r (some v) m e h = ground arith

record Refused (m : Manager) (x : Manager × Next) : Type 0 where
  reply : Reply
  refused : x ≡ (m, replies reply)

-- While face is paused for a user, every request for that user is answered at once, opens no
-- window and changes nothing.
pub request-refuses :
    (now until : ℕ) (r : Request) (m : Manager)
    → get r.user m.confirm_paused ≡ some until
    → now < until
    → (reply : Reply) × (request now r m ≡ (m, replies reply))
unfolding request
request-refuses now until r m e h = (result.reply, result.refused)
  where
    says : (x : Reply) → Refused m (m, replies x)
    says x = record { reply = x; refused = refl }

    P : Manager × Next → Type 0
    P = Refused m

    result : P (request now r m)
    result =
        if_cases P (not (r.uid == 0)) _ _ (λ _. says (failed permission_denied))
          (λ _.
            if_cases P (bad_user r) _ _ (λ _. says (failed invalid_args))
              (λ _.
                if_cases P (not (r.requester == 0) && not (is_uid r.requester_uid r.user_uid)) _ _
                  (λ _. says (answer not_local unknown))
                  (λ _.
                    if_cases P (not r.has_local_session) _ _ (λ _. says (answer not_local unknown))
                      (λ _.
                        if_cases P (not r.has_models) _ _ (λ _. says (answer no_face_model unknown))
                          (λ _. record {
                            reply = answer confirm_paused (seconds_left (until - now));
                            refused =
                                unless_paused-refuses now until r (get r.user m.confirm_paused) m e
                                  h;
                          })))))
