-- ===== src/Tests/Polygon.antt =====
-- A proposal whose second call is one of FxRoot.
use governance_seatbelt.Prelude.{ℕ, String, some, List, [], ◌∷◌, ◌≡◌, ◌+◌, refl, string_eq}
use governance_seatbelt.Tests.LayerZero.{viem}
use governance_seatbelt.PolygonFx.{
  FxCodec, jobs_from, polygon_call, is_polygon_fx_root_call, fx_job,
}
use governance_seatbelt.PolygonFx.Laws.{IsRising, job_of_order, own_job, jobs_from-IsRising-own_job}

abbrev codec : FxCodec
codec = record {
  send_message_selector = "0xb4720477";
  decode_send_message_to_child = λ s. some ("0xreceiver", "0xdata");
  encode_process_message_from_root = λ index sender message_data. some "0xprocess";
}

abbrev targets : List String
targets = "0xother" ∷ "0xfe5e5D361b2ad62c541bAb87C45a0B9B018389a2" ∷ []

abbrev calldatas : List String
calldatas = "0xb4720477" ∷ "0xb4720477" ∷ []

one_job_lem :
    jobs_from viem codec "0xtimelock" 0 targets calldatas
    ≡ fx_job viem 1
        (record { l2_target_address = "0xreceiver"; l2_input_data = "0xprocess"; l2_value = 0 })
      ∷ []
unfolding jobs_from polygon_call is_polygon_fx_root_call
one_job_lem = refl

jobs_from-IsRising-own_job_example :
    IsRising 0 (jobs_from viem codec "0xtimelock" 0 targets calldatas)
    × ((position : ℕ)
        → job_of_order (0 + position) (jobs_from viem codec "0xtimelock" 0 targets calldatas)
          ≡ own_job viem codec "0xtimelock" 0 position targets calldatas)
jobs_from-IsRising-own_job_example =
    jobs_from-IsRising-own_job viem codec "0xtimelock" 0 targets calldatas
