-- ===== src/Platform/Schemas/Ids.antt =====
-- What the pattern of schema IDs keeps out.

use openndx_core.Base.{String, ◌≡◌, refl, true, false, nat_eq, arith}
use openndx_core.Policy.Service.{field_key}
use openndx_core.Policy.Service.Keys.{has_code, field_key_injective}
use openndx_core.Platform.Schemas.{all_chars, is_schema_id, is_id_char}

no_colon_in : (s : String) → all_chars is_id_char s ≡ true → has_code 58 s ≡ false
unfolding has_code all_chars nat_eq
no_colon_in String.[] h = refl
no_colon_in (String.◌∷◌ c s) h = ground (arith, no_colon_in s)

-- A schema ID that matches the pattern has no colon.
no_colon : (s : String) → is_schema_id s ≡ true → has_code 58 s ≡ false
unfolding is_schema_id has_code
no_colon String.[] h = refl
no_colon (String.◌∷◌ c s) h = ground (arith, no_colon_in s)

-- Two fields of schemas whose IDs match the pattern have one key at the policy decision point only
-- if they are the same field of the same schema.
pub field_keys_differ :
    (a b f g : String)
    → is_schema_id a ≡ true
    → is_schema_id b ≡ true
    → field_key a f ≡ field_key b g
    → (a ≡ b) × (f ≡ g)
field_keys_differ a b f g ha hb same =
    field_key_injective a b f g (no_colon a ha) (no_colon b hb) same
