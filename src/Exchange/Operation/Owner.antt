-- ===== src/Exchange/Operation/Owner.antt =====
-- DataOwnerID finds the one value of the argument, if the fields of the query agree on it.
use openndx_core.Base.{
  String, ◌≡◌, ◌≢◌, ◌↔◌, ◌⊎◌, inl, inr, refl, sym, ap, subst, ◌∙◌, false, Option, none, some, arith,
  lookup, ◌==◌, ◌!=◌, string_eq, ok, Bool-cases,
}
use openndx_core.Exchange.Value.{Value, text}
use openndx_core.Exchange.Operation.{
  FieldInfo, Field, field, Fields, end, cons, text_of, id_value, Found, note_value, walk,
  data_owner_id,
}

-- The field stands somewhere in the query.
pub data Occurs (f : Field) : Fields → Type 0 where
  here : (rest : Fields) → Occurs f (cons f rest)
  later : (g : Field) (rest : Fields) → Occurs f rest → Occurs f (cons g rest)
  inside :
      (i : FieldInfo) (selections rest : Fields)
      → Occurs f selections
      → Occurs f (cons (field i selections) rest)

text_of-nonempty : (x : Option Value) (v : String) → text_of x ≡ some v → v ≢ ""
text_of-nonempty none v h = ground arith
text_of-nonempty (some (text w)) v h = ground arith
text_of-nonempty (some _) v h = ground arith

id_value-nonempty : (arg : String) (f : Field) (v : String) → id_value arg f ≡ some v → v ≢ ""
id_value-nonempty arg (field i selections) v h = text_of-nonempty (lookup arg i.arguments) v h

-- What an unambiguous state after `x` says of the state before and of the value that was noted.
noted_clean :
    (x : Option String) (s : Found)
    → (note_value x s).1 ≡ false
    → (s.1 ≡ false)
      × (s.0 ≢ "" → (note_value x s).0 ≡ s.0)
      × ((v : String) → x ≡ some v → v ≡ (note_value x s).0)
noted_clean none (id, ambiguous) h = ground arith
noted_clean (some w) (id, ambiguous) h = elim (Bool-cases (id == "")) [
  | inl nothing ↦ ground arith
  | inr something ↦ elim (Bool-cases (w != id)) [
    | inl differ ↦ ground arith
    | inr same ↦ ground arith
  ]
]

walk_clean :
    (arg : String) (fields : Fields) (s : Found)
    → (walk arg fields s).1 ≡ false
    → (s.1 ≡ false) × (s.0 ≢ "" → (walk arg fields s).0 ≡ s.0)
unfolding walk
walk_clean arg end s h = (h, λ n. refl)
walk_clean arg (cons (field i selections) rest) s h =
    let s1 = note_value (text_of (lookup arg i.arguments)) s in
    let s2 = walk arg selections s1 in
    let (clean2, kept2) = walk_clean arg rest s2 h in
    let (clean1, kept1) = walk_clean arg selections s1 clean2 in
    let (clean0, kept0, agree0) = noted_clean (text_of (lookup arg i.arguments)) s clean1 in
    (
      clean0,
      λ n.
          let e0 = kept0 n in
          let e1 = kept1 (λ z. n (sym e0 ∙ z)) ∙ e0 in kept2 (λ z. n (sym e1 ∙ z)) ∙ e1,
    )

first_agrees :
    (arg : String) (f : Field) (v : String) (rest : Fields)
    → id_value arg f ≡ some v
    → (s : Found) → (walk arg (cons f rest) s).1 ≡ false
    → v ≡ (walk arg (cons f rest) s).0
unfolding walk
first_agrees arg (field i selections) v rest is s h =
    let s1 = note_value (text_of (lookup arg i.arguments)) s in
    let s2 = walk arg selections s1 in
    let (clean2, kept2) = walk_clean arg rest s2 h in
    let (clean1, kept1) = walk_clean arg selections s1 clean2 in
    let (clean0, kept0, agree0) = noted_clean (text_of (lookup arg i.arguments)) s clean1 in
    let given : v ≢ "" = text_of-nonempty (lookup arg i.arguments) v is in
    let e0 = agree0 v is in
    let e1 = e0 ∙ sym (kept1 (λ z. given (e0 ∙ z))) in e1 ∙ sym (kept2 (λ z. given (e1 ∙ z)))

-- Every value is the one that an unambiguous walk ends with.
walk_agrees :
    (arg : String) (f : Field) (v : String) (fields : Fields)
    → Occurs f fields
    → id_value arg f ≡ some v
    → (s : Found) → (walk arg fields s).1 ≡ false
    → v ≡ (walk arg fields s).0
unfolding walk
walk_agrees arg f v _ (Occurs.here rest) is s h = first_agrees arg f v rest is s h
walk_agrees arg f v _ (Occurs.later (field i selections) rest o) is s h =
    walk_agrees arg f v rest o is
      (walk arg selections (note_value (text_of (lookup arg i.arguments)) s)) h
walk_agrees arg f v _ (Occurs.inside i selections rest o) is s h =
    let s1 = note_value (text_of (lookup arg i.arguments)) s in
    let s2 = walk arg selections s1 in
    let (clean2, kept2) = walk_clean arg rest s2 h in
    let e = walk_agrees arg f v selections o is s1 clean2 in
    e ∙ sym (kept2 (λ z. id_value-nonempty arg f v is (e ∙ z)))

-- A value that a walk ends with was there before, or is a field's.
noted_found :
    (x : Option String) (s : Found) → ((note_value x s).0 ≡ s.0) ⊎ (x ≡ some (note_value x s).0)
noted_found none (id, ambiguous) = inl refl
noted_found (some w) (id, ambiguous) = elim (Bool-cases (id == "")) [
  | inl nothing ↦ rw nothing (inr refl)
  | inr something ↦ elim (Bool-cases (w != id)) [
    | inl differ ↦ rw (something, differ) (inl refl)
    | inr same ↦ rw (something, same) (inl refl)
  ]
]

abbrev Holds : String → Fields → String → Type 0
Holds arg fields v = (f : Field) × Occurs f fields × (id_value arg f ≡ some v)

walk_found :
    (arg : String) (fields : Fields) (s : Found)
    → ((walk arg fields s).0 ≡ s.0) ⊎ Holds arg fields (walk arg fields s).0
unfolding walk
walk_found arg end s = inl refl
walk_found arg (cons (field i selections) rest) s =
    let s1 = note_value (text_of (lookup arg i.arguments)) s in
    let s2 = walk arg selections s1 in
    elim (walk_found arg rest s2) [
      | inr (f, o, is) ↦ inr (f, later (field i selections) rest o, is)
      | inl e2 ↦ elim (walk_found arg selections s1) [
        | inr (f, o, is) ↦ inr (f, inside i selections rest o, is ∙ ap some (sym e2))
        | inl e1 ↦ elim (noted_found (text_of (lookup arg i.arguments)) s) [
          | inr is ↦ inr (field i selections, here rest, is ∙ ap some (sym (e2 ∙ e1)))
          | inl e0 ↦ inl (e2 ∙ e1 ∙ e0)
        ]
      ]
    ]

noted_agrees :
    (x : Option String) (id : String) (s : Found)
    → ((v : String) → x ≡ some v → v ≡ id)
    → s.1 ≡ false
    → (s.0 ≡ "") ⊎ (s.0 ≡ id)
    → ((note_value x s).1 ≡ false) × (((note_value x s).0 ≡ "") ⊎ ((note_value x s).0 ≡ id))
noted_agrees none id s all clean start = (clean, start)
noted_agrees (some w) id (before, ambiguous) all clean start = elim (Bool-cases (before == "")) [
  | inl nothing ↦ rw nothing (clean, inr (all w refl))
  | inr something ↦ elim (Bool-cases (w != before)) [
    | inl differ ↦ ground (arith, all w refl)
    | inr same ↦ rw (something, same) (clean, start)
  ]
]

-- Where all values are one, a walk is unambiguous.
walk_unambiguous :
    (arg id : String) (fields : Fields) (s : Found)
    → ((f : Field) (v : String) → Occurs f fields → id_value arg f ≡ some v → v ≡ id)
    → s.1 ≡ false
    → (s.0 ≡ "") ⊎ (s.0 ≡ id)
    → ((walk arg fields s).1 ≡ false)
      × (((walk arg fields s).0 ≡ "") ⊎ ((walk arg fields s).0 ≡ id))
unfolding walk
walk_unambiguous arg id end s all clean start = (clean, start)
walk_unambiguous arg id (cons (field i selections) rest) s all clean start =
    let s1 = note_value (text_of (lookup arg i.arguments)) s in
    let s2 = walk arg selections s1 in
    let (clean1, start1) =
      noted_agrees (text_of (lookup arg i.arguments)) id s
        (λ v is. all (field i selections) v (here rest) is) clean start in
    let (clean2, start2) =
      walk_unambiguous arg id selections s1 (λ f v o is. all f v (inside i selections rest o) is)
        clean1 start1 in
    walk_unambiguous arg id rest s2 (λ f v o is. all f v (later (field i selections) rest o) is)
      clean2 start2

module _ (arg : String) (fields : Fields) (id : String) where
  owner_found :
      data_owner_id arg fields ≡ ok id
      → Holds arg fields id
        × ((f : Field) (v : String) → Occurs f fields → id_value arg f ≡ some v → v ≡ id)
  unfolding data_owner_id
  owner_found h =
      let s = walk arg fields ("", false) in
      let clean : s.1 ≡ false = ground arith in
      let is : s.0 ≡ id = ground arith in
      let given : s.0 ≢ "" = λ z. (ground arith) in
      (
        elim (walk_found arg fields ("", false)) [
          | inl nothing ↦ absurd (given nothing)
          | inr held ↦ subst (λ v. Holds arg fields v) is held
        ],
        λ f v o has. walk_agrees arg f v fields o has ("", false) clean ∙ is,
      )

  owner_agreed :
      Holds arg fields id
      → ((f : Field) (v : String) → Occurs f fields → id_value arg f ≡ some v → v ≡ id)
      → data_owner_id arg fields ≡ ok id
  unfolding data_owner_id
  owner_agreed (f, o, has) all =
      let s = walk arg fields ("", false) in
      let (clean, _) = walk_unambiguous arg id fields ("", false) all refl (inl refl) in
      let is : id ≡ s.0 = walk_agrees arg f id fields o has ("", false) clean in
      let given : id ≢ "" = id_value-nonempty arg f id has in ground arith

  -- The data owner is `id` exactly where some field of the query, at any depth, has the text `id`,
  -- not empty, as the argument, and no field has another text that is not empty.
  pub data_owner_iff : (data_owner_id arg fields ≡ ok id) ↔ (
      ((f : Field) × Occurs f fields × (id_value arg f ≡ some id))
      × ((f : Field) (v : String) → Occurs f fields → id_value arg f ≡ some v → v ≡ id))
  data_owner_iff = (owner_found, λ x. owner_agreed x.0 x.1)
