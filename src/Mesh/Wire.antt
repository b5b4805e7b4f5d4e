-- ===== src/Mesh/Wire.antt =====
-- components/dp_mesh/dp_mesh_priv.h and dp_mesh.c: addresses, keys and operation codes.
use dockpulse_iot.Prelude.{ℕ, ◌+◌, Bool, true, false, List, [], ◌∷◌}
use dockpulse_iot.Codec.Messages.{diag_wire_len}

abbrev pub company_id : ℕ
company_id = 0x02E5

abbrev pub vnd_model_id : ℕ
vnd_model_id = 0x0001

abbrev pub net_idx : ℕ
net_idx = 0

abbrev pub app_idx : ℕ
app_idx = 0

abbrev pub gateway_addr : ℕ
gateway_addr = 0x0001

abbrev pub group_addr : ℕ
group_addr = 0xC000

abbrev pub pub_buf_len : ℕ
pub_buf_len = diag_wire_len + 3

-- "dockpulse-netkey" and "dockpulse-appkey"
abbrev pub net_key : List ℕ
net_key =
    b'd' ∷ b'o' ∷ b'c' ∷ b'k' ∷ b'p' ∷ b'u' ∷ b'l' ∷ b's' ∷ b'e' ∷ b'-' ∷ b'n' ∷ b'e' ∷ b't' ∷ b'k'
    ∷ b'e' ∷ b'y' ∷ []

abbrev pub app_key : List ℕ
app_key =
    b'd' ∷ b'o' ∷ b'c' ∷ b'k' ∷ b'p' ∷ b'u' ∷ b'l' ∷ b's' ∷ b'e' ∷ b'-' ∷ b'a' ∷ b'p' ∷ b'p' ∷ b'k'
    ∷ b'e' ∷ b'y' ∷ []

-- The configuration operations that the code names; `other_op` is any other, and the 0 that stands
-- for a missing parameter block.
pub data CfgOp : Type 0 where
  app_key_add_op model_app_bind_op model_pub_set_op node_reset_op other_op : CfgOp

abbrev pub is_node_reset : CfgOp → Bool
is_node_reset node_reset_op = true
is_node_reset _ = false

abbrev pub is_pub_set : CfgOp → Bool
is_pub_set model_pub_set_op = true
is_pub_set _ = false

-- `ESP_BLE_MESH_CFG_CLIENT_…_EVT`; `reply_evt` is the get and set events.
pub data CfgEvent : Type 0 where
  publish_evt timeout_evt reply_evt : CfgEvent

-- The opcodes of the vendor model.
pub data VendorOp : Type 0 where
  status_pub diag_pub other_vendor_op : VendorOp
