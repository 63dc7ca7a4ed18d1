-- ===== src/Publisher/Keys.antt =====
-- `_convert_to_hex` of nostr_publisher.py: a bech32 key to its bytes in hex.
use agu_odoo.Base.{Bool, ◌||◌, none, some, String, [], ◌∷◌, if◌then◌else◌}
use agu_odoo.Python.{Result, ok, err, exception, value_error}
use agu_odoo.Text.{starts_with, concat, hex}
use agu_odoo.Nostr.{NostrLib, Decoded, no_value, pair, triple}

abbrev pub is_bech32 : String → Bool
is_bech32 key = starts_with key "npub" || starts_with key "nsec"

-- The body of the `try`; its own exceptions are replaced below.
abbrev pub hex_of_decoded : NostrLib → String → Decoded → Result String
hex_of_decoded lib key no_value =
    err (exception value_error (concat ("Invalid bech32 key: " ∷ key ∷ [])))
hex_of_decoded lib key (pair hrp payload) =
    err (exception value_error (concat ("Invalid bech32 key: " ∷ key ∷ [])))
hex_of_decoded lib key (triple hrp none) =
    err (exception value_error (concat ("Invalid bech32 key data: " ∷ key ∷ [])))
hex_of_decoded lib key (triple hrp (some payload)) = elim (lib.convertbits payload) [
  | none ↦ err (exception value_error (concat ("Failed to convert bech32 key: " ∷ key ∷ [])))
  | some bytes ↦ ok (hex bytes)
]

-- `raise ValueError(f"Failed to convert bech32 key: {key}") from e`
abbrev pub conversion_failed : String → Result String → Result String
conversion_failed key (ok s) = ok s
conversion_failed key (err e) =
    err (exception value_error (concat ("Failed to convert bech32 key: " ∷ key ∷ [])))

unfoldable pub convert_to_hex : NostrLib → String → Result String
convert_to_hex lib key =
    if is_bech32 key
    then conversion_failed key (hex_of_decoded lib key (lib.bech32_decode key))
    else ok key
