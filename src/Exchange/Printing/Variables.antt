-- ===== src/Exchange/Printing/Variables.antt =====
-- Naming the variables of a fetch ends, and the names differ.

use Prim.Native.String.append
use openndx_core.Base.{
  ℕ, zero, suc, ◌≤◌, String, ◌<>◌, ◌≡◌, refl, sym, ap, subst, ◌∙◌, inl, inr, true, false, ◌||◌,
  Option, none, some, List, [], ◌∷◌, ◌++◌, map, length, contains, ◌==◌, ==_sound, ==_refl,
  string_eq, if◌then◌else◌, Bool-cases, Option-cases, arith,
}
use openndx_core.Exchange.Operation.{TypeRef}
use openndx_core.Exchange.Fetches.{ProviderArgument, Fetch}
use openndx_core.Exchange.Printing.{
  Definition, Document, names_of, free_name, variable_name, with_argument, add_arguments, print,
}

-- A list without its first `x`.
unfoldable less : String → List String → List String
less x [] = []
less x (y ∷ ys) = let rest = less x ys in if y == x then ys else y ∷ rest

length-less :
    (x : String) (ys : List String) → contains ys x ≡ true → suc (length (less x ys)) ≡ length ys
unfolding less contains
length-less x [] h = absurd (ground arith)
length-less x (y ∷ ys) h = elim (Bool-cases (y == x)) [
  | inl same ↦ rw same refl
  | inr other ↦ rw other (ap suc (length-less x ys (ground arith)))
]

contains-less :
    (x z : String) (ys : List String)
    → (z == x) ≡ false
    → contains ys z ≡ true
    → contains (less x ys) z ≡ true
unfolding less contains
contains-less x z [] differ h = ground arith
contains-less x z (y ∷ ys) differ h = elim (Bool-cases (y == x)) [
  | inl same ↦ rw same ground (arith, ==_sound y z, ==_sound y x)
  | inr other ↦ rw other ground (arith, contains-less x z ys differ)
]

-- Every candidate from `i` on, `n` of them, is used.
abbrev AllUsed : (ℕ → String) → List String → ℕ → ℕ → Type 0
AllUsed candidate used zero i = Unit
AllUsed candidate used (suc n) i =
    (contains used (candidate i) ≡ true) × AllUsed candidate used n (suc i)

module _ (candidate : ℕ → String) (injective : (j k : ℕ) → candidate j ≡ candidate k → j ≡ k) where
  differs : (i j : ℕ) → suc i ≤ j → (candidate j == candidate i) ≡ false
  differs i j h = elim (Bool-cases (candidate j == candidate i)) [
    | inr other ↦ other
    | inl same ↦
        absurd (omega (arith, injective j i (==_sound (candidate j) (candidate i) same), h))
  ]

  AllUsed-less :
      (n i j : ℕ) (used : List String)
      → suc i ≤ j
      → AllUsed candidate used n j
      → AllUsed candidate (less (candidate i) used) n j
  AllUsed-less zero i j used later all = tt
  AllUsed-less (suc n) i j used later (first, all) = (
    contains-less (candidate i) (candidate j) used (differs i j later) first,
    AllUsed-less n i (suc j) used (omega (arith, later)) all,
  )

  -- As many different names as are used at most.
  used_le : (n i : ℕ) (used : List String) → AllUsed candidate used n i → n ≤ length used
  used_le zero i used all = omega arith
  used_le (suc n) i used (first, all) =
      let others =
        used_le n (suc i) (less (candidate i) used)
          (AllUsed-less n i (suc i) used (omega arith) all) in
      omega (arith, others, length-less (candidate i) used first)

unfoldable tail_of : String → String
tail_of String.[] = ""
tail_of (String.◌∷◌ c s) = s

cancel_left : (s a b : String) → s <> a ≡ s <> b → a ≡ b
unfolding tail_of
cancel_left String.[] a b h = sym (append.nil a) ∙ h ∙ append.nil b
cancel_left (String.◌∷◌ c s) a b h =
    cancel_left s a b (ap tail_of (sym (append.cons c s a) ∙ h ∙ append.cons c s b))

module _ (show : ℕ → String) (decimal : (j k : ℕ) → show j ≡ show k → j ≡ k) where
  abbrev candidate : String → ℕ → String
  candidate name i = name <> "_" <> show i

  candidate_injective : (name : String) (j k : ℕ) → candidate name j ≡ candidate name k → j ≡ k
  candidate_injective name j k h =
      decimal j k
        (cancel_left "_" (show j) (show k) (cancel_left name ("_" <> show j) ("_" <> show k) h))

  free_name-none :
      (name : String) (used : List String) (fuel i : ℕ)
      → free_name show name used fuel i ≡ none
      → AllUsed (candidate name) used fuel i
  unfolding free_name
  free_name-none name used zero i h = tt
  free_name-none name used (suc fuel) i h = elim (Bool-cases (contains used (candidate name i))) [
    | inl taken ↦ (taken, free_name-none name used fuel (suc i) (rw taken at h))
    | inr free ↦ absurd (ground arith)
  ]

  free_name-fresh :
      (name : String) (used : List String) (fuel i : ℕ) (v : String)
      → free_name show name used fuel i ≡ some v
      → contains used v ≡ false
  unfolding free_name
  free_name-fresh name used zero i v h = absurd (ground arith)
  free_name-fresh name used (suc fuel) i v h =
      elim (Bool-cases (contains used (candidate name i))) [
        | inl taken ↦ free_name-fresh name used fuel (suc i) v (rw taken at h)
        | inr free ↦ ground arith
      ]

  -- A name is found, and it is not used.
  variable_name-fresh :
      (name : String) (used : List String)
      → (v : String) × (variable_name show name used ≡ some v) × (contains used v ≡ false)
  unfolding variable_name
  variable_name-fresh name used = elim (Bool-cases (contains used name)) [
    | inr free ↦ (name, (rw free refl), free)
    | inl taken ↦ elim (Option-cases (free_name show name used (suc (length used)) 2)) [
      | inl missing ↦ absurd (
          omega (
            arith,
            used_le (candidate name) (candidate_injective name) (suc (length used)) 2 used
                (free_name-none name used (suc (length used)) 2 missing),
          ))
      | inr (v, found) ↦
          (v, (rw taken found), free_name-fresh name used (suc (length used)) 2 v found)
    ]
  ]

-- No name is there twice.
abbrev pub Distinct : List String → Type 0
Distinct [] = Unit
Distinct (x ∷ xs) = (contains xs x ≡ false) × Distinct xs

contains-end :
    (xs : List String) (x y : String) → contains (xs ++ y ∷ []) x ≡ (contains xs x || (y == x))
unfolding contains
contains-end [] x y = ground arith
contains-end (z ∷ xs) x y = ground (arith, contains-end xs x y)

Distinct-end :
    (xs : List String) (y : String) → Distinct xs → contains xs y ≡ false → Distinct (xs ++ y ∷ [])
unfolding contains
Distinct-end [] y distinct fresh = (refl, tt)
Distinct-end (x ∷ xs) y (first, distinct) fresh = (
  ground (arith, contains-end xs x y, first, fresh, ==_sound y x, ==_refl y),
  Distinct-end xs y distinct (ground arith),
)

map-end {ℓ} :
    {A B : Type ℓ} (g : A → B) (xs : List A) (y : A) → map g (xs ++ y ∷ []) ≡ map g xs ++ g y ∷ []
map-end g [] y = refl
map-end g (x ∷ xs) y = ap (λ ys. g x ∷ ys) (map-end g xs y)

append_assoc {ℓ} :
    {A : Type ℓ} (xs : List A) (y : A) (zs : List A) → (xs ++ y ∷ []) ++ zs ≡ xs ++ y ∷ zs
append_assoc [] y zs = refl
append_assoc (x ∷ xs) y zs = ap (λ ys. x ∷ ys) (append_assoc xs y zs)

-- The types of a document's variables.
abbrev pub types_of : List Definition → List TypeRef
types_of definitions = map (λ d. Definition.typ d) definitions

append_nil {ℓ} : {A : Type ℓ} (xs : List A) → xs ++ [] ≡ xs
append_nil [] = refl
append_nil (x ∷ xs) = ap (λ ys. x ∷ ys) (append_nil xs)

module _ (show : ℕ → String) (decimal : (j k : ℕ) → show j ≡ show k → j ≡ k) where
  -- A document with distinct variables, of the given types.
  abbrev pub IsPrinted : List TypeRef → Option Document → Type 0
  IsPrinted types o =
      (d : Document) × (o ≡ some d)
      × Distinct (names_of d.definitions)
      × (types_of d.definitions ≡ types)

  arguments-IsPrinted :
      (args : List ProviderArgument) (d : Document)
      → Distinct (names_of d.definitions)
      → IsPrinted
          (types_of d.definitions ++ map (λ a. ProviderArgument.typ a) args)
          (add_arguments show args d)
  unfolding add_arguments
  arguments-IsPrinted [] d distinct = (d, refl, distinct, sym (append_nil (types_of d.definitions)))
  arguments-IsPrinted (a ∷ args) d distinct =
      let (name, found, fresh) = variable_name-fresh show decimal a.name (names_of d.definitions) in
      let next = with_argument name a d in
      let new : Definition = record { variable = name; typ = a.typ } in
      let names : names_of next.definitions ≡ names_of d.definitions ++ name ∷ [] =
        map-end (λ d. Definition.variable d) d.definitions new in
      let types : types_of next.definitions ≡ types_of d.definitions ++ a.typ ∷ [] =
        map-end (λ d. Definition.typ d) d.definitions new in
      let (d', done, apart, is) =
        arguments-IsPrinted args next (
          subst Distinct (sym names) (Distinct-end (names_of d.definitions) name distinct fresh)) in
      rw (found, add_arguments)
        (
          d',
          done,
          apart,
          is
              ∙ ap (λ ts. ts ++ map (λ a. ProviderArgument.typ a) args) types
              ∙ append_assoc (types_of d.definitions) a.typ
                  (map (λ a. ProviderArgument.typ a) args),
        )

  -- The printing of a fetch ends, for a printing of numbers that tells them apart: its document has
  -- one variable for each argument, in order and of the argument's type, and no two of one name.
  pub print-IsPrinted :
      (f : Fetch) → IsPrinted (map (λ a. ProviderArgument.typ a) f.args) (print show f)
  unfolding print
  print-IsPrinted f = arguments-IsPrinted f.args _ tt
