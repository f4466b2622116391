-- ===== src/Systemd/Properties.antt =====
-- The properties of a unit in crates/elusive/src/systemd.rs: what the loop over the pairs gathers.
use elusive.Base.{
  Bool, true, false, ◌&&◌, Bool-cases, List, [], ◌∷◌, ◌++◌, Bytes, if◌then◌else◌, ◌≡◌, refl, sym,
  ap, ◌∙◌, inl, inr, arith, append_assoc, append-nil,
}
use elusive.Base.Order.{same, same-eq, nat_ord, list_ord}
use elusive.OrdMap.{get, insert}
use elusive.OrdMap.Laws.{get-insert}
use elusive.Systemd.{
  Pair, section, property, eoi, Section, Properties, or_default, push_value, collect,
}

-- What a key of a section holds.
abbrev pub values : Bytes → Bytes → Properties → List Bytes
values wanted key properties = or_default (get key (or_default (get wanted properties)))

-- The values of a key in the sections of a name, in the order of the text, from inside a section on.
abbrev pub written : Bytes → Bytes → Bytes → List Pair → List Bytes
written wanted key current [] = []
written wanted key current (section name ∷ pairs) = written wanted key name pairs
written wanted key current (property name value ∷ pairs) =
    let rest = written wanted key current pairs in
    if same wanted current && same key name then value ∷ rest else rest
written wanted key current (eoi ∷ pairs) = written wanted key current pairs

or_default-get-insert :
    (key name : Bytes) (list : List Bytes) (s : Section)
    → or_default (get key (insert name list s))
      ≡ (if same key name then list else or_default (get key s))
or_default-get-insert key name list s = ground (arith, get-insert key name list s)

section-insert :
    (wanted current : Bytes) (s : Section) (properties : Properties)
    → or_default (get wanted (insert current s properties))
      ≡ (if same wanted current then s else or_default (get wanted properties))
section-insert wanted current s properties = ground (arith, get-insert wanted current s properties)

-- What a value that is pushed adds, where its section and key are looked at.
pushed : Bool → Bool → List Bytes → Bytes → List Bytes
pushed here this old value = if here && this then old ++ (value ∷ []) else old

values-insert :
    (wanted key current name value : Bytes) (properties : Properties) (here this : Bool)
    → same wanted current ≡ here
    → same key name ≡ this
    → values wanted key (push_value current name value properties)
      ≡ pushed here this (values wanted key properties) value
unfolding push_value pushed
values-insert wanted key current name value properties here this h t =
    let s = or_default (get current properties) in
    let list = or_default (get name s) ++ (value ∷ []) in
    ap (λ x. or_default (get key x)) (section-insert wanted current (insert name list s) properties)
    ∙ ap
        (λ b.
          or_default
            (get key (if b then insert name list s else or_default (get wanted properties))))
        h
    ∙ by_section here this h t
  where
    by_key :
        (this : Bool)
        → same key name ≡ this
        → (let s = or_default (get wanted properties) in
            if this then or_default (get name s) ++ (value ∷ []) else or_default (get key s))
          ≡ pushed true this (values wanted key properties) value
    by_key true t =
        ap (λ n. or_default (get n (or_default (get wanted properties))) ++ (value ∷ []))
          (sym (same-eq key name t))
    by_key false t = refl

    by_section :
        (here this : Bool)
        → same wanted current ≡ here
        → same key name ≡ this
        → (let s = or_default (get current properties) in
            or_default (
              get key (
                if here
                then insert name (or_default (get name s) ++ (value ∷ [])) s
                else or_default (get wanted properties))))
          ≡ pushed here this (values wanted key properties) value
    by_section false this h t = refl
    by_section true this h t =
        let s = or_default (get current properties) in
        let list = or_default (get name s) ++ (value ∷ []) in
        or_default-get-insert key name list s
        ∙ ap (λ b. if b then list else or_default (get key s)) t
        ∙ ap
            (λ c.
              if this
              then or_default (get name (or_default (get c properties))) ++ (value ∷ [])
              else or_default (get key (or_default (get c properties))))
            (sym (same-eq wanted current h))
        ∙ by_key this t

written_step :
    (wanted key current name value : Bytes) (old : List Bytes) (pairs : List Pair)
    → pushed (same wanted current) (same key name) old value ++ written wanted key current pairs
      ≡ old ++ written wanted key current (property name value ∷ pairs)
unfolding pushed
written_step wanted key current name value old pairs =
    elim (Bool-cases (same wanted current && same key name)) [
      | inl yes_it ↦ rw yes_it (append_assoc old (value ∷ []) (written wanted key current pairs))
      | inr other ↦ rw other refl
    ]

pub values-collect :
    (wanted key current : Bytes) (pairs : List Pair) (properties : Properties)
    → values wanted key (collect pairs current properties)
      ≡ values wanted key properties ++ written wanted key current pairs
unfolding collect
values-collect wanted key current [] properties = sym (append-nil (values wanted key properties))
values-collect wanted key current (section name ∷ pairs) properties =
    values-collect wanted key name pairs properties
values-collect wanted key current (property name value ∷ pairs) properties =
    values-collect wanted key current pairs (push_value current name value properties)
    ∙ ap (λ old. old ++ written wanted key current pairs)
        (values-insert wanted key current name value properties (same wanted current)
          (same key name) refl refl)
    ∙ written_step wanted key current name value (values wanted key properties) pairs
values-collect wanted key current (eoi ∷ pairs) properties =
    values-collect wanted key current pairs properties
