-- ===== src/Server/Config.antt =====
-- `SV_Srv::Config` (src/SVServer/sv_server.h). The `int` fields are numbers that are not negative;
-- an `offsetMs` below zero is one that is not above zero, which the code treats as 0.
use svisual.Prelude.{ℕ, ◌*◌, [], Bool, false}
use svisual.Prelude.Bytes.{Bytes, codes}

pub record Config : Type 0 where
  pub out_archive_ena : Bool
  pub out_archive_path : Bytes
  pub out_archive_name : Bytes
  pub out_archive_hour_cnt : ℕ
  pub out_data_base_ena : Bool
  pub out_data_base_name : Bytes
  pub out_data_base_addr : Bytes
  pub cycle_rec_ms : ℕ
  pub packet_sz : ℕ
  pub offset_ms : ℕ

-- The constructor `Config()`.
abbrev pub default_config : Config
default_config = record {
  out_archive_ena = false;
  out_archive_path = [];
  out_archive_name = codes "svrec";
  out_archive_hour_cnt = 2;
  out_data_base_ena = false;
  out_data_base_name = codes "svdb";
  out_data_base_addr = codes "localhost:9000";
  cycle_rec_ms = 100;
  packet_sz = 10;
  offset_ms = 0;
}

-- `SV_CYCLESAVE_MS`
abbrev pub cycle_save_ms : Config → ℕ
cycle_save_ms c = c.cycle_rec_ms * c.packet_sz
