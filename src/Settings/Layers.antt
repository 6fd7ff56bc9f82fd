-- ===== src/Settings/Layers.antt =====
-- What the layers of linux-hello/src/settings.py say after an option was set or reset.
use Prim.Native.String.{String}
use text.Mathlib.Text.{◌==◌ as str_eq}
use text.Mathlib.TextEquality.{eq_iff}
use linux_hello.Prelude.{
  ◌≡◌, ◌≢◌, refl, sym, ap, subst, ◌∙◌, ◌⊎◌, inl, inr, Bool, true, false, Option, none, some, [],
  ◌∷◌, if◌then◌else◌, is_some, Bool-cases, All,
}
use linux_hello.Prelude.Dict.{
  Dict, get, insert, pop, get-insert, get-pop, get-insert_self, get-pop_self,
}
use linux_hello.Models.{codes}
use linux_hello.Pam.Text.{strip}
use linux_hello.Settings.{
  Config, Layered, Result, ok, settings_error, or_empty, first_of, option_in, has_option,
  load_option, section_for, with_option, set_in, set_value, put_section, without_option, reset_in,
  reset_value,
}

apart : (s t : String) → s ≢ t → str_eq s t ≡ false
apart s t n = elim (Bool-cases (str_eq s t)) [
  | inl same ↦ absurd (n ((eq_iff s t).0 same))
  | inr other ↦ other
]

get-insert_other :
    {V : Type 0} (k j : String) (v : V) (m : Dict V) → k ≢ j → get j (insert k v m) ≡ get j m
get-insert_other k j v m n =
    get-insert k j v m ∙ ap (λ (b : Bool). if b then some v else get j m) (apart k j n)

get-pop_other : {V : Type 0} (k j : String) (m : Dict V) → k ≢ j → get j (pop k m) ≡ get j m
get-pop_other {V} k j m n =
    get-pop k j m ∙ ap (λ (b : Bool). if b then none else get j m) (apart k j n)

different : (s t : String) → str_eq s t ≡ false → s ≢ t
different s t h e = false-true (sym h ∙ (eq_iff s t).1 e)
  where
    false-true : false ≢ true
    false-true w = cc w

-- An option other than the given one.
abbrev pub IsOther : (String → String) → String → String → String → String → Type 0
IsOther spell section key section' key' = (section ≢ section') ⊎ (spell key ≢ spell key')

key_differs :
    (spell : String → String) (section key section' key' : String)
    → IsOther spell section key section' key'
    → section ≡ section'
    → spell key ≢ spell key'
key_differs spell section key section' key' (inl apart_sections) e = absurd (apart_sections e)
key_differs spell section key section' key' (inr k) e = k

abbrev options_in : Config → String → Dict String
options_in c section = or_empty (get section c)

module _ (spell : String → String) where
  -- A section that is put in place: its own options, and the other sections'.
  put_section_self :
      (section key : String) (options : Dict String) (c : Config)
      → option_in spell (put_section section options c) section key ≡ get (spell key) options
  unfolding option_in get
  put_section_self section key [] c =
      ap (λ (x : Option (Dict String)). get (spell key) (or_empty x)) (get-pop_self section c)
  put_section_self section key (o ∷ options) c =
      ap (λ (x : Option (Dict String)). get (spell key) (or_empty x))
        (get-insert_self section (o ∷ options) c)

  put_section_other :
      (section section' key : String) (options : Dict String) (c : Config)
      → section ≢ section'
      → option_in spell (put_section section options c) section' key
        ≡ option_in spell c section' key
  unfolding option_in
  put_section_other section section' key [] c n =
      ap (λ (x : Option (Dict String)). get (spell key) (or_empty x))
        (get-pop_other section section' c n)
  put_section_other section section' key (o ∷ options) c n =
      ap (λ (x : Option (Dict String)). get (spell key) (or_empty x))
        (get-insert_other section section' (o ∷ options) c n)

  without_option_self :
      (section key : String) (c : Config)
      → option_in spell (without_option spell section key c) section key ≡ none
  unfolding without_option
  without_option_self section key c =
      put_section_self section key (pop (spell key) (options_in c section)) c
      ∙ get-pop_self (spell key) (options_in c section)

  without_option_other :
      (section key section' key' : String) (c : Config)
      → IsOther spell section key section' key'
      → option_in spell (without_option spell section key c) section' key'
        ≡ option_in spell c section' key'
  unfolding without_option option_in
  without_option_other section key section' key' c n = elim (Bool-cases (str_eq section section')) [
    | inr other ↦
        put_section_other section section' key' (pop (spell key) (options_in c section)) c
          (different section section' other)
    | inl same ↦
        let equal : section ≡ section' = (eq_iff section section').0 same in
        subst
          (λ (t : String).
            option_in spell (put_section section (pop (spell key) (options_in c section)) c) t key'
            ≡ option_in spell c t key')
          equal
          (put_section_self section key' (pop (spell key) (options_in c section)) c
            ∙ get-pop_other (spell key) (spell key') (options_in c section)
                (key_differs spell section key section' key' n equal))
  ]

module _ (spell : String → String) where
  with_option-put_section :
      (section key value : String) (c : Config)
      → with_option spell section key value c
        ≡ put_section section (insert (spell key) value (options_in c section)) c
  unfolding with_option insert
  with_option-put_section section key value c = nonempty (options_in c section)
    where
      nonempty :
          (m : Dict String)
          → insert section (insert (spell key) value m) c
            ≡ put_section section (insert (spell key) value m) c
      nonempty [] = refl
      nonempty ((k, v) ∷ m) = elim (Bool-cases (str_eq k (spell key))) [
        | inl same ↦ rw same refl
        | inr other ↦ rw other refl
      ]

  with_option_self :
      (section key value : String) (c : Config)
      → option_in spell (with_option spell section key value c) section key ≡ some value
  with_option_self section key value c =
      ap (λ (x : Config). option_in spell x section key)
        (with_option-put_section section key value c)
      ∙ put_section_self spell section key (insert (spell key) value (options_in c section)) c
      ∙ get-insert_self (spell key) value (options_in c section)

  with_option_other :
      (section key value section' key' : String) (c : Config)
      → IsOther spell section key section' key'
      → option_in spell (with_option spell section key value c) section' key'
        ≡ option_in spell c section' key'
  unfolding option_in
  with_option_other section key value section' key' c n =
      let options = insert (spell key) value (options_in c section) in
      ap (λ (x : Config). option_in spell x section' key')
        (with_option-put_section section key value c)
      ∙ elim (Bool-cases (str_eq section section')) [
        | inr other ↦
            put_section_other spell section section' key' options c
              (different section section' other)
        | inl same ↦
            let equal : section ≡ section' = (eq_iff section section').0 same in
            subst
              (λ (t : String).
                option_in spell (put_section section options c) t key' ≡ option_in spell c t key')
              equal
              (put_section_self spell section key' options c
                ∙ get-insert_other (spell key) (spell key') value (options_in c section)
                    (key_differs spell section key section' key' n equal))
      ]

-- A value that is one line to a parser, without space around it.
pub record IsPlain (value : String) : Type 0 where
  pub one_line : All (λ c. (c ≢ 10) × (c ≢ 13)) (codes value)
  pub stripped : strip (codes value) ≡ codes value

module _ (spell : String → String) (reread : Config → Config) where
  -- What the parser promises: overrides with a plain value for a known option, it reads as it wrote them.
  pub record Rereads (l : Layered) : Type 0 where
    pub as_written :
        (section key value : String)
        → has_option spell l.defaults section key ≡ true
        → IsPlain value
        → reread (with_option spell section key value l.overrides)
          ≡ with_option spell section key value l.overrides

  -- What `set_value` comes to, once the section is known.
  set_in-ok :
      (l l' : Layered) (key value s : String) (r : Result (Option String))
      → Rereads l
      → IsPlain value
      → set_in spell reread l key value r ≡ ok (l', s)
      → l' ≡ record l { overrides = with_option spell s key value l.overrides }
  set_in-ok l l' key value s settings_error rereads plain e = absurd (cc e)
  set_in-ok l l' key value s (ok none) rereads plain e = absurd (cc e)
  set_in-ok l l' key value s (ok (some section)) rereads plain e =
      elim (Bool-cases (has_option spell l.defaults section key)) [
        | inr unknown ↦
            let wrong : settings_error ≡ ok (l', s) = rw unknown at e in absurd (cc wrong)
        | inl known ↦
            let made : ok (
              record l { overrides = reread (with_option spell section key value l.overrides) },
              section,
            )
                ≡ ok (l', s) =
              rw known at e in
            let where_to : section ≡ s = cc made in
            let same : record l {
              overrides = reread (with_option spell section key value l.overrides);
            }
                ≡ l' =
              cc made in
            sym same
            ∙ ap (λ (c : Config). record l { overrides = c })
                (rereads.as_written section key value known plain)
            ∙ ap
                (λ (t : String). record l { overrides = with_option spell t key value l.overrides })
                where_to
      ]

  -- Where `set_value` succeeds, for a value without line ends and without space around it, and a parser that reads
  -- such values as it wrote them (Rereads), the settings say that value for the option in the section that it
  -- names, and for every other option what they said before.
  pub set_value-load_option :
      (l l' : Layered) (key value s : String) (section : Option String)
      → Rereads l
      → IsPlain value
      → set_value spell reread l key value section ≡ ok (l', s)
      → (load_option spell l' s key ≡ some value)
        × ((section' key' : String)
            → IsOther spell s key section' key'
            → load_option spell l' section' key' ≡ load_option spell l section' key')
  unfolding set_value load_option
  set_value-load_option l l' key value s section rereads plain e =
      let made = set_in-ok l l' key value s (section_for spell l key section) rereads plain e in
      (
        ap (λ (x : Layered). load_option spell x s key) made
            ∙ ap (λ o. first_of o (option_in spell l.defaults s key))
                (with_option_self spell s key value l.overrides),
        λ section' key' n.
            ap (λ (x : Layered). load_option spell x section' key') made
            ∙ ap (λ o. first_of o (option_in spell l.defaults section' key'))
                (with_option_other spell s key value section' key' l.overrides n),
      )

-- What `reset_value` gives: the default of the option, and the others as they were.
abbrev pub IsReset : (String → String) → String → String → Layered → Result Layered → Type 0
IsReset spell s key l settings_error = ⊥
IsReset spell s key l (ok l') =
    (load_option spell l' s key ≡ option_in spell l.defaults s key)
    × ((section' key' : String)
        → IsOther spell s key section' key'
        → load_option spell l' section' key' ≡ load_option spell l section' key')

module _ (spell : String → String) where
  no_override : (o : Option String) → is_some o ≡ false → o ≡ none
  no_override none h = refl
  no_override (some v) h = absurd (cc h)

  -- Where the section of an option is known, `reset_value` succeeds: the settings say the default for the option,
  -- or nothing where there is none, and for every other option what they said before.
  pub reset_value-IsReset :
      (l : Layered) (key s : String) (section : Option String)
      → section_for spell l key section ≡ ok (some s)
      → IsReset spell s key l (reset_value spell l key section)
  unfolding reset_value load_option
  reset_value-IsReset l key s section e =
      subst (λ (r : Result (Option String)). IsReset spell s key l (reset_in spell l key r)) (sym e)
        (by_override (is_some (option_in spell l.overrides s key)) refl)
    where
      by_override :
          (b : Bool)
          → is_some (option_in spell l.overrides s key) ≡ b
          → IsReset spell s key l (
              if b
              then ok (record l { overrides = without_option spell s key l.overrides })
              else ok l)
      by_override true h = (
        ap (λ o. first_of o (option_in spell l.defaults s key))
            (without_option_self spell s key l.overrides),
        λ section' key' n.
            ap (λ o. first_of o (option_in spell l.defaults section' key'))
              (without_option_other spell s key section' key' l.overrides n),
      )
      by_override false h = (
        ap (λ o. first_of o (option_in spell l.defaults s key))
            (no_override (option_in spell l.overrides s key) h),
        λ section' key' n. refl,
      )
