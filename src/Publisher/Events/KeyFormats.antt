-- ===== src/Publisher/Events/KeyFormats.antt =====
-- The two `_convert_to_hex` of the nostr_publisher addon against one `bech32_decode`.
use agu_odoo.Base.{◌≡◌, refl, true, String, arith}
use agu_odoo.Python.{Error, ok, err}
use agu_odoo.Nostr.{NostrLib, Decoded, no_value, pair, triple}
use agu_odoo.Publisher.Keys.{is_bech32, hex_of_decoded, conversion_failed, convert_to_hex}
use agu_odoo.Publisher.Events.{event_hex_of_decoded, event_convert_to_hex}

decoded_formats :
    (lib : NostrLib) (key h : String) (d : Decoded)
    → conversion_failed key (hex_of_decoded lib key d) ≡ ok h
    → (e : Error) × (event_hex_of_decoded lib key d ≡ err e)
decoded_formats lib key h no_value q = absurd (ground arith)
decoded_formats lib key h (pair a b) q = absurd (ground arith)
decoded_formats lib key h (triple a b) q = (_, refl)

-- If the publisher can convert a bech32 key, then the table of events raises on it: the one takes
-- a triple from `bech32_decode`, the other a pair.
pub convert_to_hex_formats :
    (lib : NostrLib) (key h : String)
    → is_bech32 key ≡ true
    → convert_to_hex lib key ≡ ok h
    → (e : Error) × (event_convert_to_hex lib key ≡ err e)
unfolding convert_to_hex event_convert_to_hex
convert_to_hex_formats lib key h b q =
    rw b (decoded_formats lib key h (lib.bech32_decode key) (rw b at q))
