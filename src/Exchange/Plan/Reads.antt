-- ===== src/Exchange/Plan/Reads.antt =====
-- What a plan reads, against a direct account of the query's fields.
use openndx_core.Base.{
  String, ◌≡◌, refl, sym, ap, subst, ◌∙◌, inl, inr, Bool, true, false, ◌&&◌, ◌||◌, List, [], ◌∷◌,
  ◌++◌, contains, arith, ◌==◌, ==_sound, string_eq, Bool-cases, All,
}
use openndx_core.Exchange.Operation.{FieldInfo}
use openndx_core.Exchange.Access.{RequiredField}
use openndx_core.Exchange.Plan.{has_field, add_required, add_fetches}
use openndx_core.Exchange.Fetches.{Fetch, has_fetch, change_fetch, with_field, with_consumer_field}
use openndx_core.Exchange.Plan.Keys.{first_part}

-- Whether some fetch reads a field.
unfoldable pub reads : List Fetch → RequiredField → Bool
reads [] r = false
reads (f ∷ fetches) r =
    ((f.schema_id == r.schema_id) && contains f.fields r.field_name) || reads fetches r

contains-append :
    (a : List String) (x y : String) → contains (a ++ x ∷ []) y ≡ (contains a y || (x == y))
unfolding contains
contains-append [] x y = ground arith
contains-append (z ∷ a) x y = ground (arith, contains-append a x y)

pub has_field-append :
    (a b : List RequiredField) (r : RequiredField)
    → has_field (a ++ b) r ≡ (has_field a r || has_field b r)
unfolding has_field
has_field-append [] b r = refl
has_field-append (g ∷ a) b r = ground (arith, has_field-append a b r)

has_field-add_required :
    (schema_id : String) (paths : List String) (fields : List RequiredField) (r : RequiredField)
    → has_field (add_required schema_id paths fields) r
      ≡ (has_field fields r || ((schema_id == r.schema_id) && contains paths r.field_name))
unfolding has_field add_required contains
has_field-add_required schema_id [] fields r = ground arith
has_field-add_required schema_id (path ∷ paths) fields r =
    let f : RequiredField = record { field_name = path; schema_id = schema_id } in
    ground (
      arith,
      has_field-append fields (f ∷ []) r,
      has_field-add_required schema_id paths fields r,
      has_field-add_required schema_id paths (fields ++ f ∷ []) r,
      ==_sound schema_id r.schema_id,
      ==_sound path r.field_name,
    )

pub has_field-add_fetches :
    (fetches : List Fetch) (fields : List RequiredField) (r : RequiredField)
    → has_field (add_fetches fetches fields) r ≡ (has_field fields r || reads fetches r)
unfolding add_fetches reads
has_field-add_fetches [] fields r = ground arith
has_field-add_fetches (f ∷ fetches) fields r = ground (
  arith,
  has_field-add_fetches fetches (add_required f.schema_id f.fields fields) r,
  has_field-add_required f.schema_id f.fields fields r,
)

-- The key of a fetch begins with its schema.
abbrev pub KeyIsRight : Fetch → Type 0
KeyIsRight f = first_part f.key ≡ f.schema_id

contains-with_field :
    (path : String) (f : Fetch) (x : String)
    → contains (with_field path f).fields x ≡ (contains f.fields x || (path == x))
contains-with_field path f x = elim (Bool-cases (contains f.fields path)) [
  | inl there ↦ rw there ground (arith, ==_sound path x)
  | inr fresh ↦ rw fresh (contains-append f.fields path x)
]

pub with_field-keeps :
    (path : String) (f : Fetch)
    → ((with_field path f).schema_id ≡ f.schema_id) × ((with_field path f).key ≡ f.key)
with_field-keeps path f = elim (Bool-cases (contains f.fields path)) [
  | inl there ↦ rw there (refl, refl)
  | inr fresh ↦ rw fresh (refl, refl)
]

reads-with_field_here :
    (path : String) (f : Fetch) (fetches : List Fetch) (r : RequiredField)
    → reads (with_field path f ∷ fetches) r
      ≡ (reads (f ∷ fetches) r || ((f.schema_id == r.schema_id) && (path == r.field_name)))
unfolding reads
reads-with_field_here path f fetches r =
    rw (contains-with_field path f r.field_name) rw ((with_field-keeps path f).0) ground arith

pub reads-with_field :
    (path key : String) (fetches : List Fetch) (r : RequiredField)
    → All KeyIsRight fetches
    → has_fetch key fetches ≡ true
    → reads (change_fetch (with_field path) key fetches) r
      ≡ (reads fetches r || ((first_part key == r.schema_id) && (path == r.field_name)))
unfolding reads has_fetch change_fetch
reads-with_field path key [] r right there = absurd (ground arith)
reads-with_field path key (f ∷ fetches) r (is, right) there = elim (Bool-cases (f.key == key)) [
  | inl here ↦ rw here (
      subst
        (λ s.
          reads (with_field path f ∷ fetches) r
          ≡ (reads (f ∷ fetches) r || ((s == r.schema_id) && (path == r.field_name))))
        (sym is ∙ ap first_part (==_sound f.key key here)) (reads-with_field_here path f fetches r))
  | inr other ↦ rw other (
      let later = reads-with_field path key fetches r right (ground arith) in ground (arith, later))
]

-- A change that keeps what the fetches are known by.
abbrev pub KeepsKeys : (Fetch → Fetch) → Type 0
KeepsKeys change = (f : Fetch) → ((change f).schema_id ≡ f.schema_id) × ((change f).key ≡ f.key)

module _ (change : Fetch → Fetch) (keeps : KeepsKeys change) (key : String) where
  pub change_fetch-right :
      (fetches : List Fetch)
      → All KeyIsRight fetches
      → All KeyIsRight (change_fetch change key fetches)
  unfolding change_fetch
  change_fetch-right [] right = tt
  change_fetch-right (f ∷ fetches) (is, right) = elim (Bool-cases (f.key == key)) [
    | inl here ↦ rw here (ap first_part (keeps f).1 ∙ is ∙ sym (keeps f).0, right)
    | inr other ↦ rw other (is, change_fetch-right fetches right)
  ]

  pub has_fetch-change_fetch :
      (k : String) (fetches : List Fetch)
      → has_fetch k (change_fetch change key fetches) ≡ has_fetch k fetches
  unfolding change_fetch has_fetch
  has_fetch-change_fetch k [] = refl
  has_fetch-change_fetch k (f ∷ fetches) = elim (Bool-cases (f.key == key)) [
    | inl here ↦ rw here rw ((keeps f).1) refl
    | inr other ↦ rw other rw (has_fetch-change_fetch k fetches) refl
  ]

pub reads-with_consumer_field :
    (i : FieldInfo) (key : String) (fetches : List Fetch) (r : RequiredField)
    → reads (change_fetch (with_consumer_field i) key fetches) r ≡ reads fetches r
unfolding change_fetch reads
reads-with_consumer_field i key [] r = refl
reads-with_consumer_field i key (f ∷ fetches) r =
    ground (arith, reads-with_consumer_field i key fetches r)

pub reads-new_fetch :
    (f : Fetch) (fetches : List Fetch) (r : RequiredField)
    → f.fields ≡ []
    → reads (fetches ++ f ∷ []) r ≡ reads fetches r
unfolding reads contains
reads-new_fetch f [] r none_yet = rw none_yet ground arith
reads-new_fetch f (g ∷ fetches) r none_yet = ground (arith, reads-new_fetch f fetches r none_yet)

pub has_fetch-new_fetch :
    (k : String) (f : Fetch) (fetches : List Fetch)
    → has_fetch k (fetches ++ f ∷ []) ≡ (has_fetch k fetches || (f.key == k))
unfolding has_fetch
has_fetch-new_fetch k f [] = ground arith
has_fetch-new_fetch k f (g ∷ fetches) = ground (arith, has_fetch-new_fetch k f fetches)

pub right-new_fetch :
    (f : Fetch) (fetches : List Fetch)
    → KeyIsRight f
    → All KeyIsRight fetches
    → All KeyIsRight (fetches ++ f ∷ [])
right-new_fetch f [] is right = (is, tt)
right-new_fetch f (g ∷ fetches) is (first, right) = (first, right-new_fetch f fetches is right)
