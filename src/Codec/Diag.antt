-- ===== src/Codec/Diag.antt =====
-- components/dp_common/dp_common.c: `berth_diag_pack` and `berth_diag_unpack`.
use dockpulse_iot.Prelude.{
  ℕ, zero, suc, ◌+◌, ◌*◌, ◌/◌, ◌%◌, ◌≤◌, ◌≡◌, refl, sym, ap, ◌∙◌, List, [], ◌∷◌, ◌++◌, Option, none,
  some, arith, ltb, if◌then◌else◌, length, get_or, drop, u8, le16, le32, le16_bytes,
  get_or-append_right, All, append_assoc, length-append, drop_all, append-nil,
}
use dockpulse_iot.Esp.{EspErr, esp_ok, invalid_arg, invalid_size}
use dockpulse_iot.Codec.Messages.{BerthDiag, DiagInRange, IsU16, gate_count, diag_wire_len}
use dockpulse_iot.Codec.Status.{store_len}

-- The loop over the gates of `berth_diag_pack`.
pub gates_bytes : List ℕ → List ℕ
gates_bytes [] = []
gates_bytes (g ∷ gs) = g % 256 ∷ u8 (g / 256) ∷ gates_bytes gs

-- The bytes that `berth_diag_pack` writes, in order.
pub diag_bytes : BerthDiag → List ℕ
diag_bytes d =
    d.node_id
    ∷ d.berth_id % 256
    ∷ u8 (d.berth_id / 256)
    ∷ d.target_state
    ∷ d.raw_distance_cm % 256
    ∷ u8 (d.raw_distance_cm / 256)
    ∷ (gates_bytes d.gate_energy
        ++ (d.ts_ms % 256
            ∷ d.ts_ms / 256 % 256
            ∷ d.ts_ms / 65536 % 256
            ∷ d.ts_ms / 16777216 % 256
            ∷ []))

-- The length reported is the running index, so the number of bytes written.
pub berth_diag_pack :
    Option BerthDiag → Option (List ℕ) → ℕ → Option ℕ → EspErr × Option (List ℕ) × Option ℕ
berth_diag_pack none buf cap out_len = (invalid_arg, buf, out_len)
berth_diag_pack (some d) none cap out_len = (invalid_arg, none, out_len)
berth_diag_pack (some d) (some buf) cap out_len =
    if ltb cap diag_wire_len then (invalid_size, some buf, out_len) else (
      esp_ok,
      some (diag_bytes d ++ drop (length (diag_bytes d)) buf),
      store_len (length (diag_bytes d)) out_len,
    )

-- The loop over the gates of `berth_diag_unpack`: rounds left, buffer, index.
pub gates_of_bytes : ℕ → List ℕ → ℕ → List ℕ
gates_of_bytes zero buf i = []
gates_of_bytes (suc n) buf i =
    le16 (get_or buf i 0) (get_or buf (i + 1) 0) ∷ gates_of_bytes n buf (i + 2)

unfoldable pub diag_of_bytes : List ℕ → BerthDiag
diag_of_bytes buf = record {
  node_id = get_or buf 0 0;
  berth_id = le16 (get_or buf 1 0) (get_or buf 2 0);
  target_state = get_or buf 3 0;
  raw_distance_cm = le16 (get_or buf 4 0) (get_or buf 5 0);
  gate_energy = gates_of_bytes gate_count buf 6;
  ts_ms = le32 (get_or buf 38 0) (get_or buf 39 0) (get_or buf 40 0) (get_or buf 41 0);
}

unfoldable pub berth_diag_unpack :
    Option (List ℕ) → ℕ → Option BerthDiag → EspErr × Option BerthDiag
berth_diag_unpack none len out = (invalid_arg, out)
berth_diag_unpack (some buf) len none = (invalid_arg, none)
berth_diag_unpack (some buf) len (some d) =
    if ltb len diag_wire_len then (invalid_size, some d) else (esp_ok, some (diag_of_bytes buf))

length-gates_bytes : (gs : List ℕ) → length (gates_bytes gs) ≡ 2 * length gs
unfolding gates_bytes
length-gates_bytes [] = refl
length-gates_bytes (g ∷ gs) = omega (arith, length-gates_bytes gs)

-- Reading behind the first byte is reading the rest.
gates_of_bytes_shift :
    (n i x : ℕ) (buf : List ℕ) → gates_of_bytes n (x ∷ buf) (suc i) ≡ gates_of_bytes n buf i
unfolding gates_of_bytes
gates_of_bytes_shift zero i x buf = refl
gates_of_bytes_shift (suc n) i x buf =
    let one : suc i + 1 ≡ suc (i + 1) = omega arith in
    let two : suc i + 2 ≡ suc (i + 2) = omega arith in
    rw (one, two, gates_of_bytes_shift n (i + 2) x buf)

gates_of_bytes-gates_bytes :
    (gs rest : List ℕ) → All IsU16 gs → gates_of_bytes (length gs) (gates_bytes gs ++ rest) 0 ≡ gs
unfolding gates_of_bytes gates_bytes
gates_of_bytes-gates_bytes [] rest h = refl
gates_of_bytes-gates_bytes (g ∷ gs) rest h =
    let low = g % 256 in
    let high = u8 (g / 256) in
    let tail = gates_bytes gs ++ rest in
    rw (
      gates_of_bytes_shift (length gs) 1 low (high ∷ tail),
      gates_of_bytes_shift (length gs) 0 high tail,
      gates_of_bytes-gates_bytes gs rest h.1,
      le16_bytes g h.0,
    )

-- The 32 bytes of the gates lie between offset 6 and the time stamp.
module _ (d : BerthDiag) (rest : List ℕ) (h : DiagInRange d) where
  abbrev behind : List ℕ
  behind =
      d.ts_ms % 256 ∷ d.ts_ms / 256 % 256 ∷ d.ts_ms / 65536 % 256 ∷ d.ts_ms / 16777216 % 256 ∷ rest

  gates_read : gates_of_bytes gate_count (gates_bytes d.gate_energy ++ behind) 0 ≡ d.gate_energy
  gates_read = rw (sym h.gate_total) (gates_of_bytes-gates_bytes d.gate_energy behind h.gates)

  stamp_read :
      (i k : ℕ) → k ≡ 32 + i → get_or (gates_bytes d.gate_energy ++ behind) k 0 ≡ get_or behind i 0
  stamp_read i k e =
      get_or-append_right (gates_bytes d.gate_energy) behind i k 0
        (omega (arith, length-gates_bytes d.gate_energy, h.gate_total))

  shift_gates :
      (a b c e f g : ℕ) (buf : List ℕ)
      → gates_of_bytes gate_count (a ∷ b ∷ c ∷ e ∷ f ∷ g ∷ buf) 6 ≡ gates_of_bytes gate_count buf 0
  shift_gates a b c e f g buf =
      gates_of_bytes_shift 16 5 a (b ∷ c ∷ e ∷ f ∷ g ∷ buf)
      ∙ gates_of_bytes_shift 16 4 b (c ∷ e ∷ f ∷ g ∷ buf)
      ∙ gates_of_bytes_shift 16 3 c (e ∷ f ∷ g ∷ buf)
      ∙ gates_of_bytes_shift 16 2 e (f ∷ g ∷ buf)
      ∙ gates_of_bytes_shift 16 1 f (g ∷ buf)
      ∙ gates_of_bytes_shift 16 0 g buf

  pub diag_of_bytes-diag_bytes : diag_of_bytes (diag_bytes d ++ rest) ≡ d
  unfolding diag_of_bytes diag_bytes
  diag_of_bytes-diag_bytes = rw (append_assoc (gates_bytes d.gate_energy)) (
      let tail = gates_bytes d.gate_energy ++ behind in
      ground (
        arith,
        shift_gates d.node_id (d.berth_id % 256) (u8 (d.berth_id / 256)) d.target_state
            (d.raw_distance_cm % 256) (u8 (d.raw_distance_cm / 256)) tail,
        gates_read,
        stamp_read 0 32,
        stamp_read 1 33,
        stamp_read 2 34,
        stamp_read 3 35,
        h,
      ))

-- Every diagnostic message takes 42 bytes.
pub length-diag_bytes :
    (d : BerthDiag) → length d.gate_energy ≡ gate_count → length (diag_bytes d) ≡ diag_wire_len
unfolding diag_bytes
length-diag_bytes d h = omega (
  arith,
  length-append (gates_bytes d.gate_energy)
      (d.ts_ms % 256 ∷ d.ts_ms / 256 % 256 ∷ d.ts_ms / 65536 % 256 ∷ d.ts_ms / 16777216 % 256 ∷ []),
  length-gates_bytes d.gate_energy,
)

-- Packing a diagnostic message whose fields fit their C types into a buffer of at least 42 bytes
-- reports 42 bytes, and unpacking the buffer gives the message back with all sixteen gates, whatever
-- the buffer held.
pub unpack-pack_diag :
    (d old : BerthDiag) (buf : List ℕ) (cap len : ℕ)
    → DiagInRange d
    → diag_wire_len ≤ cap
    → diag_wire_len ≤ len
    → let (e, out, n) = berth_diag_pack (some d) (some buf) cap (some 0) in
      (e ≡ esp_ok) × (n ≡ some 42) × (berth_diag_unpack out len (some old) ≡ (esp_ok, some d))
unfolding berth_diag_pack berth_diag_unpack
unpack-pack_diag d old buf cap len h hc hl = ground (
  arith,
  length-diag_bytes d h.gate_total,
  diag_of_bytes-diag_bytes d (drop (length (diag_bytes d)) buf) h,
)

-- Packing into an array of exactly 42 bytes.
pub pack_whole_diag :
    (d : BerthDiag) (buf : List ℕ)
    → DiagInRange d
    → length buf ≡ diag_wire_len
    → berth_diag_pack (some d) (some buf) diag_wire_len (some 0)
      ≡ (esp_ok, some (diag_bytes d), some 42)
unfolding berth_diag_pack
pack_whole_diag d buf h len =
    let size = length-diag_bytes d h.gate_total in
    let empty : drop (length (diag_bytes d)) buf ≡ [] =
      drop_all buf (length (diag_bytes d)) (len ∙ sym size) in
    rw (empty, append-nil (diag_bytes d), size) refl

pub unpack_whole_diag :
    (d old : BerthDiag)
    → DiagInRange d
    → berth_diag_unpack (some (diag_bytes d)) (length (diag_bytes d)) (some old) ≡ (esp_ok, some d)
unfolding berth_diag_unpack
unpack_whole_diag d old h =
    let whole : diag_of_bytes (diag_bytes d) ≡ d =
      ap diag_of_bytes (sym (append-nil (diag_bytes d))) ∙ diag_of_bytes-diag_bytes d [] h in
    rw (length-diag_bytes d h.gate_total, whole) refl
