-- ===== src/Codec/Status.antt =====
-- components/dp_common/dp_common.c: `berth_status_pack` and `berth_status_unpack`.
use dockpulse_iot.Prelude.{
  ℕ, ◌/◌, ◌%◌, ◌≤◌, ◌≡◌, refl, not, List, [], ◌∷◌, ◌++◌, Option, none, some, arith, Bool-cases, ◌⊎◌,
  inl, inr, ◌≢◌, ltb, ◌==◌, if◌then◌else◌, length, get_or, drop, u8, le16, le32, All, length-drop,
  drop_all, append-nil, ap, sym, ◌∙◌,
}
use dockpulse_iot.Esp.{EspErr, esp_ok, invalid_arg, invalid_size}
use dockpulse_iot.Codec.Messages.{BerthStatus, StatusInRange, status_wire_len, IsByte}

-- The bytes that `berth_status_pack` writes, in order.
unfoldable pub status_bytes : BerthStatus → List ℕ
status_bytes s =
    s.node_id
    ∷ s.berth_id % 256
    ∷ u8 (s.berth_id / 256)
    ∷ (if s.occupied then 1 else 0)
    ∷ s.sensor_raw_mm % 256
    ∷ u8 (s.sensor_raw_mm / 256)
    ∷ s.battery_pct
    ∷ s.ts_ms % 256
    ∷ s.ts_ms / 256 % 256
    ∷ s.ts_ms / 65536 % 256
    ∷ s.ts_ms / 16777216 % 256
    ∷ []

-- `if (out_len) { *out_len = n; }`
abbrev pub store_len : ℕ → Option ℕ → Option ℕ
store_len n none = none
store_len n (some _) = some n

-- `buf` is the memory behind the pointer and `out_len` the cell behind the last argument.
pub berth_status_pack :
    Option BerthStatus → Option (List ℕ) → ℕ → Option ℕ → EspErr × Option (List ℕ) × Option ℕ
berth_status_pack none buf cap out_len = (invalid_arg, buf, out_len)
berth_status_pack (some s) none cap out_len = (invalid_arg, none, out_len)
berth_status_pack (some s) (some buf) cap out_len =
    if ltb cap status_wire_len then (invalid_size, some buf, out_len) else (
      esp_ok,
      some (status_bytes s ++ drop status_wire_len buf),
      store_len status_wire_len out_len,
    )

unfoldable pub status_of_bytes : List ℕ → BerthStatus
status_of_bytes buf = record {
  node_id = get_or buf 0 0;
  berth_id = le16 (get_or buf 1 0) (get_or buf 2 0);
  occupied = not (get_or buf 3 0 == 0);
  sensor_raw_mm = le16 (get_or buf 4 0) (get_or buf 5 0);
  battery_pct = get_or buf 6 0;
  ts_ms = le32 (get_or buf 7 0) (get_or buf 8 0) (get_or buf 9 0) (get_or buf 10 0);
}

-- `out` is the cell behind the last argument.
unfoldable pub berth_status_unpack :
    Option (List ℕ) → ℕ → Option BerthStatus → EspErr × Option BerthStatus
berth_status_unpack none len out = (invalid_arg, out)
berth_status_unpack (some buf) len none = (invalid_arg, none)
berth_status_unpack (some buf) len (some s) =
    if ltb len status_wire_len then (invalid_size, some s) else (esp_ok, some (status_of_bytes buf))

-- Decoding what was encoded, with anything behind it.
pub status_of_bytes-status_bytes :
    (s : BerthStatus) (rest : List ℕ)
    → StatusInRange s
    → status_of_bytes (status_bytes s ++ rest) ≡ s
unfolding status_of_bytes status_bytes
status_of_bytes-status_bytes s rest h = ground arith

-- Packing a status whose fields fit their C types into a buffer of at least 11 bytes succeeds, and
-- unpacking the buffer gives the status back, whatever the buffer held.
pub unpack-pack :
    (s old : BerthStatus) (buf : List ℕ) (cap len : ℕ)
    → StatusInRange s
    → status_wire_len ≤ cap
    → status_wire_len ≤ len
    → let (e, out, n) = berth_status_pack (some s) (some buf) cap (some 0) in
      (e ≡ esp_ok) × (n ≡ some 11) × (berth_status_unpack out len (some old) ≡ (esp_ok, some s))
unfolding berth_status_pack berth_status_unpack
unpack-pack s old buf cap len h hc hl =
    ground (arith, status_of_bytes-status_bytes s (drop status_wire_len buf))

-- For every argument, `berth_status_pack` keeps the length of a buffer that holds the promised
-- `cap` bytes and every byte from offset 11 on; a call that fails writes no byte and no length.
pub pack_frame :
    (s : Option BerthStatus) (buf : List ℕ) (cap n : ℕ)
    → cap ≤ length buf
    → let (e, out, len) = berth_status_pack s (some buf) cap (some n) in
      ((e ≡ esp_ok)
        × (len ≡ some 11)
        × ((after : List ℕ) × (out ≡ some after)
            × (length after ≡ length buf)
            × (drop 11 after ≡ drop 11 buf)))
      ⊎ ((e ≢ esp_ok) × (out ≡ some buf) × (len ≡ some n))
unfolding berth_status_pack status_bytes
pack_frame none buf cap n h = inr (λ e. cc, refl, refl)
pack_frame (some s) buf cap n h = elim (Bool-cases (ltb cap status_wire_len)) [
  | inl small ↦ rw small (inr (λ e. cc, refl, refl))
  | inr fits ↦ rw fits (
      inl (
        refl,
        refl,
        (status_bytes s ++ drop 11 buf, refl, ground (arith, length-drop 11 buf), refl),
      ))
]

-- A byte that was normalised as `occupied` is.
abbrev pub flag_byte : ℕ → ℕ
flag_byte b = if b == 0 then 0 else 1

-- Unpacking any eleven bytes and packing the result writes the same eleven bytes, but that a
-- non-zero `occupied` byte becomes 1.
pub pack-unpack :
    (a b c d e f g h i j k : ℕ) (rest : List ℕ)
    → All IsByte (a ∷ b ∷ c ∷ d ∷ e ∷ f ∷ g ∷ h ∷ i ∷ j ∷ k ∷ [])
    → status_bytes (status_of_bytes (a ∷ b ∷ c ∷ d ∷ e ∷ f ∷ g ∷ h ∷ i ∷ j ∷ k ∷ rest))
      ≡ a ∷ b ∷ c ∷ flag_byte d ∷ e ∷ f ∷ g ∷ h ∷ i ∷ j ∷ k ∷ []
unfolding status_bytes status_of_bytes
pack-unpack a b c d e f g h i j k rest v = ground arith

-- Packing into an array of exactly eleven bytes.
pub pack_whole :
    (s : BerthStatus) (buf : List ℕ)
    → length buf ≡ status_wire_len
    → berth_status_pack (some s) (some buf) status_wire_len (some 0)
      ≡ (esp_ok, some (status_bytes s), some 11)
unfolding berth_status_pack
pack_whole s buf h =
    ap (λ rest. (esp_ok, some (status_bytes s ++ rest), some 11)) (drop_all buf status_wire_len h)
    ∙ ap (λ l. (esp_ok, some l, some 11)) (append-nil (status_bytes s))

pub unpack_whole :
    (s old : BerthStatus)
    → StatusInRange s
    → berth_status_unpack (some (status_bytes s)) (length (status_bytes s)) (some old)
      ≡ (esp_ok, some s)
unfolding berth_status_unpack
unpack_whole s old h =
    let whole : status_of_bytes (status_bytes s) ≡ s =
      ap status_of_bytes (sym (append-nil (status_bytes s)))
      ∙ status_of_bytes-status_bytes s [] h in
    rw whole (unfold status_bytes in refl)

pub length-status_bytes : (s : BerthStatus) → length (status_bytes s) ≡ status_wire_len
unfolding status_bytes
length-status_bytes s = refl
