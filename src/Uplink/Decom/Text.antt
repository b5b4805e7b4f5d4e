-- ===== src/Uplink/Decom/Text.antt =====
-- components/dp_gateway/dp_gateway_decom.c: the address that dp_gateway.c writes is read back.
use dockpulse_iot.Prelude.{
  none, ℕ, ◌+◌, ◌*◌, ◌/◌, ◌%◌, ◌<◌, ◌≡◌, ◌≢◌, refl, ◌∙◌, true, false, List, [], ◌∷◌, some, arith,
  ltb, strtoul, read_unsigned, read_digits, digit_value,
}
use dockpulse_iot.Uplink.Hex.{hex_digit}
use dockpulse_iot.Uplink.Status.{addr_text}
use dockpulse_iot.Uplink.Decom.{in_range}

digit-hex_digit : (d : ℕ) → d < 16 → digit_value (hex_digit d) ≡ d
digit-hex_digit d h = ground arith

step :
    (d acc : ℕ) (cs : List ℕ)
    → d < 16
    → read_digits 16 (some acc) (hex_digit d ∷ cs) ≡ read_digits 16 (some (acc * 16 + d)) cs
unfolding read_digits
step d acc cs h = let small : ltb d 16 ≡ true = ground arith in rw (digit-hex_digit d h, small) refl

first_step :
    (d : ℕ) (cs : List ℕ)
    → d < 16
    → read_digits 16 none (hex_digit d ∷ cs) ≡ read_digits 16 (some d) cs
unfolding read_digits
first_step d cs h =
    let small : ltb d 16 ≡ true = ground arith in
    let same : 0 + d ≡ d = omega arith in rw (digit-hex_digit d h, small, same) refl

four_digits :
    (a b c d : ℕ)
    → a < 16
    → b < 16
    → c < 16
    → d < 16
    → read_digits 16 none (hex_digit a ∷ hex_digit b ∷ hex_digit c ∷ hex_digit d ∷ [])
      ≡ some (((a * 16 + b) * 16 + c) * 16 + d)
unfolding read_digits
four_digits a b c d ha hb hc hd =
    first_step a (hex_digit b ∷ hex_digit c ∷ hex_digit d ∷ []) ha
    ∙ step b a (hex_digit c ∷ hex_digit d ∷ []) hb
    ∙ step c (a * 16 + b) (hex_digit d ∷ []) hc
    ∙ step d ((a * 16 + b) * 16 + c) [] hd

-- An address in the form of the status messages is read as that address.
pub strtoul-addr_text : (a : ℕ) → a < 65536 → strtoul (addr_text a) ≡ some a
unfolding strtoul read_unsigned
strtoul-addr_text a h =
    let read =
      four_digits (a / 4096) (a / 256 % 16) (a / 16 % 16) (a % 16) (omega arith) (omega arith)
        (omega arith) (omega arith) in
    let value : ((a / 4096 * 16 + a / 256 % 16) * 16 + a / 16 % 16) * 16 + a % 16 ≡ a =
      omega arith in
    let fits : ltb 4294967295 a ≡ false = ground arith in rw (read, value, fits) refl

pub in_range-addr : (a : ℕ) → a ≢ 0 → a < 65536 → in_range (some a) ≡ some a
in_range-addr a named h = ground arith
