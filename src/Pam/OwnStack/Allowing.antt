-- ===== src/Pam/OwnStack/Allowing.antt =====
-- What the auth lines of `build_own_stack` of linux-hello/src/integration/pam.py let through.
use linux_hello.Models.{codes}
use linux_hello.Prelude.{
  ◌≡◌, refl, ◌⊎◌, inl, inr, Bool, true, false, ◌&&◌, not, Option, none, some, List, [], ◌∷◌, ◌++◌,
  if◌then◌else◌, Bool-cases, All,
}
use linux_hello.Pam.Text.{Text, splitlines, concat, startswith, endswith, basename, elem}
use linux_hello.Pam.Lines.{module_of, is_auth_line, is_some_of}
use linux_hello.Pam.Blocks.{newline, Result, ok, pam_error}
use linux_hello.Pam.OwnStack.{
  own_stack_line, own_stack_drop, own_header_lines, close_line, is_kept, is_kept_module, own_body,
  own_text, build_own_stack,
}

-- An auth line of the fingerprint stack whose module is neither the fingerprint's nor the permit one.
pub record IsProtective (from_fingerprint : Bool) (line : Text) : Type 0 where
  pub fingerprint : from_fingerprint ≡ true
  pub name : Text
  pub found : (module_of line).1 ≡ some name
  pub passed : elem (basename name) own_stack_drop ≡ false

-- A line of the body: no auth line, ours, or a protective one.
abbrev pub IsAllowed : Bool → Text → Type 0
IsAllowed fp line =
    (is_auth_line line ≡ false) ⊎ ((line ≡ own_stack_line ++ newline) ⊎ IsProtective fp line)

-- A source line that is not replaced by ours.
abbrev pub IsPassed : Bool → Text → Type 0
IsPassed fp l =
    (startswith (close_line l) (codes "#%PAM") ≡ true)
    ⊎ ((is_auth_line (close_line l) ≡ false) ⊎ IsProtective fp (close_line l))

abbrev pub Has : Text → List Text → Type 0
Has x [] = ⊥
Has x (y ∷ ys) = (x ≡ y) ⊎ Has x ys

and_left : (a b : Bool) → a && b ≡ true → a ≡ true
and_left true b h = refl
and_left false b h = h

and_right : (a b : Bool) → a && b ≡ true → b ≡ true
and_right true b h = h
and_right false b h = absurd (cc h)

kept_module :
    (m : Option Text)
    → is_kept_module m ≡ true
    → (name : Text) × ((m ≡ some name) × (elem (basename name) own_stack_drop ≡ false))
kept_module none h = absurd (cc h)
kept_module (some name) h = (
  name,
  (
    refl,
    flip (elem (basename name) own_stack_drop)
        (and_right (endswith name (codes ".so")) (not (elem (basename name) own_stack_drop)) h),
  ),
)
  where
    flip : (b : Bool) → not b ≡ true → b ≡ false
    flip true k = absurd (cc k)
    flip false k = refl

kept-IsProtective : (fp : Bool) (line : Text) → is_kept fp line ≡ true → IsProtective fp line
unfolding is_kept
kept-IsProtective fp line h =
    let m = kept_module (module_of line).1 (
      and_right (fp && is_some_of ((module_of line).0) (codes "auth"))
        (is_kept_module ((module_of line).1)) h) in
    record {
      fingerprint = and_left fp (is_some_of ((module_of line).0) (codes "auth")) (
          and_left (fp && is_some_of ((module_of line).0) (codes "auth"))
            (is_kept_module ((module_of line).1)) h);
      name = m.0;
      found = m.1.0;
      passed = m.1.1;
    }

-- What the loop leaves, from a start where ours is placed or is not.
record Body (fp placed : Bool) (ls : List Text) (r : List Text × Bool) : Type 0 where
  allowed : All (IsAllowed fp) r.0
  ours : (r.1 ≡ true) → (placed ≡ true) ⊎ Has (own_stack_line ++ newline) r.0
  unplaced : (r.1 ≡ false) → (placed ≡ false) × All (IsPassed fp) ls

Body-skip :
    (fp placed : Bool) (l : Text) (ls : List Text) (r : List Text × Bool)
    → IsPassed fp l
    → Body fp placed ls r
    → Body fp placed (l ∷ ls) r
Body-skip fp placed l ls r p b = record {
  allowed = b.allowed;
  ours = b.ours;
  unplaced = λ e. ((b.unplaced e).0, (p, (b.unplaced e).1));
}

Body-keep :
    (fp placed : Bool) (l : Text) (ls : List Text) (r : List Text × Bool)
    → IsAllowed fp (close_line l)
    → IsPassed fp l
    → Body fp placed ls r
    → Body fp placed (l ∷ ls) (close_line l ∷ r.0, r.1)
Body-keep fp placed l ls r a p b = record {
  allowed = (a, b.allowed);
  ours = λ e. elim (b.ours e) [ inl before ↦ inl before | inr later ↦ inr (inr later) ];
  unplaced = λ e. ((b.unplaced e).0, (p, (b.unplaced e).1));
}

Body-ours :
    (fp : Bool) (l : Text) (ls : List Text) (r : List Text × Bool)
    → Body fp true ls r
    → Body fp false (l ∷ ls) ((own_stack_line ++ newline) ∷ r.0, r.1)
Body-ours fp l ls r b = record {
  allowed = (inr (inl refl), b.allowed);
  ours = λ e. inr (inl refl);
  unplaced = λ e. absurd (cc (b.unplaced e).0);
}

Body-drop :
    (fp : Bool) (l : Text) (ls : List Text) (r : List Text × Bool)
    → Body fp true ls r
    → Body fp true (l ∷ ls) r
Body-drop fp l ls r b = record {
  allowed = b.allowed;
  ours = b.ours;
  unplaced = λ e. absurd (cc (b.unplaced e).0);
}

own_body-Body : (fp placed : Bool) (ls : List Text) → Body fp placed ls (own_body fp placed ls)
unfolding own_body
own_body-Body fp placed [] = record { allowed = tt; ours = λ e. inl e; unplaced = λ e. (e, tt) }
own_body-Body fp placed (l ∷ ls) =
    let rest = own_body-Body fp placed ls in
    let placed_rest = own_body-Body fp true ls in
    elim (Bool-cases (startswith (close_line l) (codes "#%PAM"))) [
      | inl mark ↦ rw mark (Body-skip fp placed l ls _ (inl mark) rest)
      | inr plain ↦ elim (Bool-cases (is_auth_line (close_line l))) [
        | inr other ↦
            rw (plain, other) (Body-keep fp placed l ls _ (inl other) (inr (inl other)) rest)
        | inl auth ↦ elim (Bool-cases (is_kept fp (close_line l))) [
          | inl keep ↦
              let p = kept-IsProtective fp (close_line l) keep in
              rw (plain, auth, keep) (Body-keep fp placed l ls _ (inr (inr p)) (inr (inr p)) rest)
          | inr drop ↦
              rw (plain, auth, drop) (dropped placed (own_body fp placed ls) rest placed_rest)
        ]
      ]
    ]
  where
    dropped :
        (b : Bool) (r : List Text × Bool)
        → Body fp b ls r
        → Body fp true ls (own_body fp true ls)
        → Body fp b (l ∷ ls) (
            if b
            then r
            else ((own_stack_line ++ newline) ∷ (own_body fp true ls).0, (own_body fp true ls).1))
    dropped true r now later = Body-drop fp l ls r now
    dropped false r now later = Body-ours fp l ls (own_body fp true ls) later

-- What `build_own_stack` returns: a text with our line in it.
pub record Grants (fp : Bool) (t : Text) : Type 0 where
  pub body : List Text
  pub whole : t ≡ concat (own_header_lines ++ body)
  pub placed : Has (own_stack_line ++ newline) body
  pub allowed : All (IsAllowed fp) body

abbrev pub Built : Bool → Text → Result Text → Type 0
Built fp source (ok t) = Grants fp t
Built fp source pam_error = All (IsPassed fp) (splitlines source)

-- For every source text: either `build_own_stack` returns the header and a body in which our line stands and
-- every auth line is ours or, when the source is the fingerprint stack, a line of a module other than
-- pam_fprintd.so and pam_permit.so; or it fails, and then every line of the source is a `#%PAM` line, no auth
-- line, or such a line of another module.
pub build_own_stack-Grants :
    (source : Text) (fp : Bool) → Built fp source (build_own_stack source fp)
unfolding build_own_stack
build_own_stack-Grants source fp =
    built (own_body fp false (splitlines source)) (own_body-Body fp false (splitlines source))
  where
    built :
        (r : List Text × Bool) → Body fp false (splitlines source) r → Built fp source (own_text r)
    built (body, true) b = record {
      body = body;
      whole = refl;
      placed = elim (b.ours refl) [ inl wrong ↦ absurd (cc wrong) | inr there ↦ there ];
      allowed = b.allowed;
    }
    built (body, false) b = (b.unplaced refl).1
