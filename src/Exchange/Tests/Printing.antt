-- ===== src/Exchange/Tests/Printing.antt =====
-- The operation of a fetch with two arguments of one name.
use Prim.Native.Char.{char}
use openndx_core.Base.{
  ℕ, zero, suc, String, ◌≡◌, refl, sym, ◌∙◌, ap, true, some, [], ◌∷◌, map, contains, insert,
  string_eq, nat_eq,
}
use openndx_core.Exchange.Value.{text}
use openndx_core.Exchange.Paths.{split_on}
use openndx_core.Exchange.Operation.{named}
use openndx_core.Exchange.Fetches.{ProviderArgument, Fetch}
use openndx_core.Exchange.Printing.{
  Document, print, add_arguments, operation_name, variable_name, free_name, root_of, add_path,
  new_path, no_nodes, next_node, node,
}
use openndx_core.Exchange.Printing.Variables.{IsPrinted, print-IsPrinted}

-- Numbers as tallies, which tell them apart.
unfoldable tally : ℕ → String
tally zero = ""
tally (suc n) = String.◌∷◌ (char 49 tt) (tally n)

unfoldable ones : String → ℕ
ones String.[] = 0
ones (String.◌∷◌ c s) = suc (ones s)

ones-tally : (n : ℕ) → ones (tally n) ≡ n
unfolding ones tally
ones-tally zero = refl
ones-tally (suc n) = ap suc (ones-tally n)

tally_injective : (j k : ℕ) → tally j ≡ tally k → j ≡ k
tally_injective j k h = sym (ones-tally j) ∙ ap ones h ∙ ones-tally k

abbrev two_ids : Fetch
two_ids = record {
  schema_id = "drp-v1";
  fields = "person.name" ∷ [];
  consumer_fields = [];
  key = "k";
  args =
      record { path = "person"; name = "id"; typ = named "ID" true; value = text "1" }
      ∷ record { path = "person.name"; name = "id"; typ = named "String" true; value = text "2" }
      ∷ [];
}

print-IsPrinted_example :
    IsPrinted tally tally_injective
      (map (λ a. ProviderArgument.typ a) (two_ids.args))
      (print tally two_ids)
print-IsPrinted_example = print-IsPrinted tally tally_injective two_ids

abbrev document : Document
document = record {
  operation = "Querydrp_v1";
  definitions =
      record { variable = "id"; typ = named "ID" true }
      ∷ record { variable = "id_11"; typ = named "String" true }
      ∷ [];
  variables = ("id", text "1") ∷ ("id_11", text "2") ∷ [];
  selections =
      next_node
        (node "person" (record { argument_name = "id"; variable = "id" } ∷ []) (
          next_node
            (node "name" (record { argument_name = "id"; variable = "id_11" } ∷ []) no_nodes)
            no_nodes))
        no_nodes;
}

test_print : print tally two_ids ≡ some document
unfolding print add_arguments operation_name variable_name free_name root_of add_path new_path
    split_on contains insert tally string_eq nat_eq
test_print = refl
