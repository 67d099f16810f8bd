-- ===== src/Exchange/Value.antt =====
-- The values of JSON, as encoding/json decodes them into interface{}: what internal/oe/federator
-- reads from a provider's response and writes into the consumer's. A number is its text.
use openndx_core.Base.{String, Bool, true, false, ◌==◌, string_eq, if◌then◌else◌}

mutual
  pub data Value : Type 0 where
    null : Value
    boolean : Bool → Value
    number : String → Value
    text : String → Value
    array : Items → Value
    object : Members → Value

  pub data Items : Type 0 where
    no_items : Items
    item : Value → Items → Items

  pub data Members : Type 0 where
    no_members : Members
    member : String → Value → Members → Members

-- m[key], where a missing key reads as nil
unfoldable pub get_member : String → Members → Value
get_member key no_members = null
get_member key (member k v rest) = let other = get_member key rest in if k == key then v else other

-- m[key] = value
unfoldable pub set_member : String → Value → Members → Members
set_member key value no_members = member key value no_members
set_member key value (member k v rest) =
    let other = set_member key value rest in
    if k == key then member k value rest else member k v other

-- Whether a map has the key.
unfoldable pub has_member : String → Members → Bool
has_member key no_members = false
has_member key (member k v rest) =
    let other = has_member key rest in if k == key then true else other

unfoldable pub add_item : Items → Value → Items
add_item no_items v = item v no_items
add_item (item w rest) v = item w (add_item rest v)

-- value != nil
abbrev pub is_null : Value → Bool
is_null null = true
is_null _ = false
