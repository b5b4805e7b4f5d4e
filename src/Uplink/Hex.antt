-- ===== src/Uplink/Hex.antt =====
-- components/dp_gateway/dp_gateway_adopt.c: `hex_decode` reads what a backend writes.
use dockpulse_iot.Prelude.{
  ℕ, ◌+◌, ◌-◌, ◌*◌, ◌/◌, ◌%◌, ◌≡◌, ◌<◌, refl, List, [], ◌∷◌, Option, some, arith, ltb,
  if◌then◌else◌, length, u8, All, ==_self,
}
use dockpulse_iot.Codec.Messages.{IsByte}
use dockpulse_iot.Uplink.Adopt.{hex_bytes, hex_decode}

-- A lower-case hexadecimal digit.
abbrev pub hex_digit : ℕ → ℕ
hex_digit d = if ltb d 10 then b'0' + d else b'a' + d - 10

abbrev pub hex_text : List ℕ → List ℕ
hex_text [] = []
hex_text (b ∷ bs) = hex_digit (b / 16) ∷ hex_digit (b % 16) ∷ hex_text bs

-- `sscanf` with "%2x" reads two hexadecimal digits as the number that they write.
abbrev pub ReadsDigits : (List ℕ → Option ℕ) → Type 0
ReadsDigits scan_hex2 =
    (b : ℕ) (rest : List ℕ)
    → b < 256
    → scan_hex2 (hex_digit (b / 16) ∷ hex_digit (b % 16) ∷ rest) ≡ some b

length-hex_text : (bs : List ℕ) → length (hex_text bs) ≡ length bs * 2
length-hex_text [] = omega arith
length-hex_text (b ∷ bs) = omega (arith, length-hex_text bs)

module _ (scan_hex2 : List ℕ → Option ℕ) (reads : ReadsDigits scan_hex2) where
  hex_bytes-hex_text :
      (bs : List ℕ) → All IsByte bs → hex_bytes scan_hex2 (length bs) (hex_text bs) ≡ some bs
  unfolding hex_bytes
  hex_bytes-hex_text [] h = refl
  hex_bytes-hex_text (b ∷ bs) h =
      let small : u8 b ≡ b = omega (arith, h.0) in
      rw (reads b (hex_text bs) h.0, hex_bytes-hex_text bs h.1, small) refl

  -- When the formatted reader reads two hexadecimal digits as their number, `hex_decode` of the
  -- lower-case text of some bytes, with their number, gives the bytes back.
  pub hex_decode-hex_text :
      (bs : List ℕ) → All IsByte bs → hex_decode scan_hex2 (hex_text bs) (length bs) ≡ some bs
  unfolding hex_decode
  hex_decode-hex_text bs h =
      rw (length-hex_text bs, ==_self (length bs * 2), hex_bytes-hex_text bs h) refl
