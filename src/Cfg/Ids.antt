-- ===== src/Cfg/Ids.antt =====
-- include/cfg/ids.hh and include/def/cfg.def: the parameters, their record keys, indices and bits.
use ledfw_lib.Common.{ℕ, ◌<◌, ◌^◌, ◌≡◌, List, [], ◌∷◌, arith}

-- `enum class id`
pub data ParamId : Type 0 where
  dmx_channel led0_render led1_render led2_render led3_render : ParamId

-- its values
unfoldable pub id_code : ParamId → ℕ
id_code dmx_channel = 0x8000
id_code led0_render = 0x8010
id_code led1_render = 0x8011
id_code led2_render = 0x8012
id_code led3_render = 0x8013

unfoldable pub id_to_index : ParamId → ℕ
id_to_index dmx_channel = 0
id_to_index led0_render = 1
id_to_index led1_render = 2
id_to_index led2_render = 3
id_to_index led3_render = 4

-- `1 << index`
unfoldable pub id_to_notif : ParamId → ℕ
id_to_notif dmx_channel = 1
id_to_notif led0_render = 2
id_to_notif led1_render = 4
id_to_notif led2_render = 8
id_to_notif led3_render = 16

abbrev pub n_params : ℕ
n_params = 5

abbrev pub all_ids : List ParamId
all_ids = dmx_channel ∷ led0_render ∷ led1_render ∷ led2_render ∷ led3_render ∷ []

-- The index is in range, the notification bit is the index's own bit and fits the 16 bits that the
-- flash thread looks at, and the index and the record key each tell the parameters apart.
pub ids_lem :
    (x y : ParamId)
    → (id_to_index x < n_params)
      × (id_to_notif x ≡ 2 ^ id_to_index x)
      × (id_to_notif x < 2 ^ 16)
      × (id_to_index x ≡ id_to_index y → x ≡ y)
      × (id_code x ≡ id_code y → x ≡ y)
unfolding id_to_index id_to_notif id_code
ids_lem x y = ground arith
