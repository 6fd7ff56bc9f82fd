-- ===== src/Engine/Filter/Dark.antt =====
-- The learned baseline of `DarkFilter` in linux-hello/src/engine.py.
use linux_hello.Prelude.{
  ℕ, ◌+◌, ◌*◌, ◌≤◌, ◌<◌, min, ◌≡◌, refl, true, ◌&&◌, Option, none, some, List, [], ◌∷◌, ◌++◌, arith,
  leb, ltb, if◌then◌else◌, length, drop, length-append, length-drop, All, All-append, inl, inr,
  Bool-cases,
}
use linux_hello.Engine.Filter.{DarkFilter, baseline, is_too_dark, remember, accept, accept_under}

All-drop : (P : ℕ → Type 0) (xs : List ℕ) → All P xs → All P (drop 1 xs)
All-drop P [] h = tt
All-drop P (x ∷ xs) h = h.1

remember-length : (d : ℕ) (h : List ℕ) → length h ≤ 30 → length (remember d h) ≤ 30
unfolding remember
remember-length d h k = elim (Bool-cases (ltb 30 (length (h ++ d ∷ [])))) [
  | inl long ↦ rw long (omega (arith, length-drop 1 (h ++ d ∷ []), length-append h (d ∷ [])))
  | inr fits ↦ rw fits (ground arith)
]

All-remember : (P : ℕ → Type 0) (d : ℕ) (h : List ℕ) → P d → All P h → All P (remember d h)
unfolding remember
All-remember P d h p a =
    let grown : All P (h ++ d ∷ []) = All-append P h (d ∷ []) a (p, tt) in
    elim (Bool-cases (ltb 30 (length (h ++ d ∷ [])))) [
      | inl long ↦ rw long (All-drop P (h ++ d ∷ []) grown)
      | inr fits ↦ rw fits grown
    ]

length-remember_grows : (d n : ℕ) (h : List ℕ) → n ≤ 30 → n ≤ length h → n ≤ length (remember d h)
unfolding remember
length-remember_grows d n h m k = elim (Bool-cases (ltb 30 (length (h ++ d ∷ [])))) [
  | inl long ↦
      let more : 30 < length (h ++ d ∷ []) = ground arith in
      rw long (omega (arith, more, length-drop 1 (h ++ d ∷ [])))
  | inr fits ↦ rw fits (omega (arith, length-append h (d ∷ [])))
]

-- The darkness values that are accepted in turn, and the filter after them.
unfoldable pub accept_all : List ℕ → DarkFilter → DarkFilter × List ℕ
accept_all [] f = (f, [])
accept_all (d ∷ ds) f =
    let (g, taken) = accept d f in
    let (h, rest) = accept_all ds g in (h, if taken then d ∷ rest else rest)

-- The filter learns, and has seen five frames or more.
pub record IsLearned (f : DarkFilter) : Type 0 where
  pub auto : f.threshold ≡ none
  pub enough : 5 ≤ length f.history
  pub bounded : length f.history ≤ 30

accept_under-IsLearned :
    (t : Option ℕ) (d : ℕ) (h : List ℕ)
    → t ≡ none
    → 5 ≤ length h
    → length h ≤ 30
    → let next = accept_under t d (record { threshold = t; history = h }) in
      IsLearned next.0 × (next.1 ≡ true → d ≤ 95_000)
unfolding is_too_dark
accept_under-IsLearned (some x) d h e m k = cc e
accept_under-IsLearned none d h e m k =
    elim (Bool-cases (leb 5 (length h) && ltb (min 380_000 (5 * baseline h + 40_000)) (4 * d))) [
      | inl dark ↦ rw dark (record { auto = refl; enough = m; bounded = k }, (λ n. cc n))
      | inr fine ↦ rw fine (
        record {
          auto = refl;
          enough = length-remember_grows d 5 h (omega arith) m;
          bounded = remember-length d h k;
        },
        (λ n. ground arith),
      )
    ]

accept-IsLearned :
    (d : ℕ) (f : DarkFilter)
    → IsLearned f
    → IsLearned (accept d f).0 × ((accept d f).1 ≡ true → d ≤ 95_000)
unfolding accept
accept-IsLearned d f l = accept_under-IsLearned f.threshold d f.history l.auto l.enough l.bounded

-- Once five frames were accepted in the mode that learns, no frame of which more than 95 percent is in
-- the darkest bucket is accepted, however dark the room; the filter keeps 5 to 30 values.
pub accept_all-bounds :
    (ds : List ℕ) (f : DarkFilter)
    → IsLearned f
    → IsLearned (accept_all ds f).0 × All (λ d. d ≤ 95_000) (accept_all ds f).1
unfolding accept_all
accept_all-bounds [] f l = (l, tt)
accept_all-bounds (d ∷ ds) f l =
    let here = accept-IsLearned d f l in
    let rest = accept_all-bounds ds (accept d f).0 here.0 in
    elim (Bool-cases (accept d f).1) [
      | inl taken ↦ rw taken (rest.0, (here.1 taken, rest.1))
      | inr skipped ↦ rw skipped rest
    ]
