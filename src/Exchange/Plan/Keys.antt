-- ===== src/Exchange/Plan/Keys.antt =====
-- A key begins with the schema that its fetch is of.
use Prim.Native.Char.{Char, code, nul}
use Prim.Native.String.append
use openndx_core.Base.{
  String, ◌<>◌, ◌≡◌, refl, subst, Bool, false, ◌||◌, ◌==◌, nat_eq, if◌then◌else◌, List, [], ◌∷◌,
  arith, Result, ok, inl, inr, Result-cases, some,
}
use openndx_core.Exchange.Operation.{SourceInfo, field, Fields, end, cons}
use openndx_core.Exchange.Fetches.{Tools, ProviderArgument, zero_byte, key_rest, fetch_key}

abbrev is_zero : Char → Bool
is_zero c = code c == 0

unfoldable pub has_zero : String → Bool
has_zero String.[] = false
has_zero (String.◌∷◌ c s) = is_zero c || has_zero s

-- The part of a text before its first zero byte.
unfoldable pub first_part : String → String
first_part String.[] = ""
first_part (String.◌∷◌ c s) = let rest = first_part s in if is_zero c then "" else String.◌∷◌ c rest

first_part-append :
    (s t : String) → has_zero s ≡ false → first_part t ≡ "" → first_part (s <> t) ≡ s
unfolding has_zero first_part
first_part-append String.[] t clean tail = rw (append.nil t) tail
first_part-append (String.◌∷◌ c s) t clean tail =
    rw (append.cons c s t) ground (arith, first_part-append s t, clean, tail)

first_part-zero : (s : String) → first_part (zero_byte <> s) ≡ ""
unfolding first_part nat_eq
first_part-zero s = rw (append.cons nul "" s) refl

first_part-empty : first_part "" ≡ ""
unfolding first_part
first_part-empty = refl

abbrev ok_text : String → Result String String
ok_text a = ok a

ok_injective : (a b : String) → ok_text a ≡ ok b → a ≡ b
ok_injective a b h = cc

first_part-key_rest :
    (tools : Tools) (args : List ProviderArgument) (rest : String)
    → key_rest tools args ≡ ok rest
    → first_part rest ≡ ""
unfolding key_rest
first_part-key_rest tools [] rest h =
    subst (λ s. first_part s ≡ "") (ok_injective _ _ h) first_part-empty
first_part-key_rest tools (a ∷ args) rest h = elim (Result-cases (tools.marshal a.value)) [
  | inr (e, is) ↦ absurd (ground arith)
  | inl (value, is) ↦ elim (Result-cases (key_rest tools args)) [
    | inr (e, later) ↦ absurd (ground arith)
    | inl (after, later) ↦
        let tail =
          a.path
          <> zero_byte
          <> a.name
          <> zero_byte
          <> tools.print_type a.typ
          <> zero_byte
          <> value
          <> after in
        subst (λ s. first_part s ≡ "") (ok_injective (zero_byte <> tail) rest (ground arith))
          (first_part-zero tail)
  ]
]

-- A query whose schemas' names have no zero byte.
abbrev pub IsClean : Fields → Type 0
IsClean end = Unit
IsClean (cons (field i selections) rest) =
    ((info : SourceInfo) → i.source ≡ some info → has_zero info.schema_id ≡ false)
    × IsClean selections
    × IsClean rest

pub first_part-fetch_key :
    (tools : Tools) (info : SourceInfo) (args : List ProviderArgument) (key : String)
    → has_zero info.schema_id ≡ false
    → fetch_key tools info args ≡ ok key
    → first_part key ≡ info.schema_id
unfolding fetch_key
first_part-fetch_key tools info args key clean h = elim (Result-cases (key_rest tools args)) [
  | inr (e, is) ↦ absurd (ground arith)
  | inl (rest, is) ↦
      subst (λ s. first_part s ≡ info.schema_id) (ok_injective _ _ (ground arith))
        (first_part-append info.schema_id rest clean (first_part-key_rest tools args rest is))
]
