-- ===== src/Tests/Web.antt =====
-- Requests for the last data of a signal.
use svisual.Prelude.{ℕ, ◌≡◌, refl, List, [], ◌∷◌, true, Option, none, some, if◌then◌else◌}
use svisual.Prelude.Bytes.{Bytes, codes, str_eq, starts_with}
use svisual.Prelude.Maps.{Map}
use svisual.Base.{SignalData}
use svisual.Viewer.FileLoader.Index.{blank_signal}
use svisual.Web.{LastData, last_signal_data, split, on_url, content_type_for_path}
use svisual.Web.Laws.{is_some, all_have, last_signal_data-eq-all_have}

abbrev temp : SignalData ℕ
temp = record (blank_signal 0) {
  name = codes "temp";
  type = 1;
  last_data = record { begin_time = 1000; vals = 7 ∷ 8 ∷ [] };
}

abbrev only_temp : Bytes → Option (SignalData ℕ)
only_temp n = if str_eq n (codes "temphall") then some temp else none

abbrev query : List Bytes
query = codes "sname=temphall" ∷ codes "sname=other" ∷ []

abbrev answer : Map LastData
answer = (codes "temphall", record { type = 1; begin_time = 1000; vals = 7 ∷ 8 ∷ [] }) ∷ []

-- The query, cut by the callback.
query_of_url :
    on_url
      (some (true, codes "/api/lastSignalData" ∷ codes "sname=temphall&sname=other" ∷ []))
      (record { req_page = []; req_signals = []; c_field = []; req_fields = [] })
    ≡ some (record {
      req_page = codes "/api/lastSignalData";
      req_signals = query;
      c_field = [];
      req_fields = [];
    })
unfolding on_url split starts_with
query_of_url = refl

type_of_page : content_type_for_path (codes "/Index.HTML") ≡ codes "text/html; charset=utf-8"
unfolding content_type_for_path str_eq
type_of_page = refl

last_signal_data-eq-all_have_example :
    is_some (last_signal_data only_temp (λ u. u) 2 (codes "sname" ∷ []) [])
    ≡ all_have 61 (codes "sname" ∷ [])
last_signal_data-eq-all_have_example =
    last_signal_data-eq-all_have only_temp (λ u. u) 2 (codes "sname" ∷ []) []
