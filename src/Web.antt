-- ===== src/Web.antt =====
-- The web server (src/SVWebServer/src/web_server_impl.cpp): the callbacks of the parser of requests,
-- and the response. The parser (http_parser) and Qt's JSON and URL classes are arguments. `none` is
-- an element of a list that is not there.
pub mod Laws
use svisual.Prelude.{
  ℕ, zero, suc, ◌+◌, ◌-◌, List, [], ◌∷◌, ◌++◌, map, Bool, true, false, not, ◌&&◌, ◌||◌, Option,
  none, some, if◌then◌else◌, ltb, leb, ◌==◌, length, take, drop, get_elem?,
}
use svisual.Prelude.Bytes.{Bytes, codes, str_eq, starts_with}
use svisual.Prelude.Maps.{Map, lookup, insert}
use svisual.Base.{RecData, SignalData}

-- `toLower` on ASCII letters, which the endings consist of.
abbrev pub lower : Bytes → Bytes
lower [] = []
lower (b ∷ s) = (if leb 65 b && leb b 90 then b + 32 else b) ∷ lower s

abbrev pub ends_with : Bytes → Bytes → Bool
ends_with p s = leb (length p) (length s) && str_eq (drop (length s - length p) s) p

-- The table of `contentTypeForPath`.
abbrev pub content_types : List (Bytes × Bytes)
content_types =
    (codes ".html", codes "text/html; charset=utf-8")
    ∷ (codes ".htm", codes "text/html; charset=utf-8")
    ∷ (codes ".js", codes "application/javascript; charset=utf-8")
    ∷ (codes ".mjs", codes "application/javascript; charset=utf-8")
    ∷ (codes ".css", codes "text/css; charset=utf-8")
    ∷ (codes ".json", codes "application/json; charset=utf-8")
    ∷ (codes ".svg", codes "image/svg+xml")
    ∷ (codes ".png", codes "image/png")
    ∷ (codes ".jpg", codes "image/jpeg")
    ∷ (codes ".jpeg", codes "image/jpeg")
    ∷ (codes ".gif", codes "image/gif")
    ∷ (codes ".ico", codes "image/x-icon")
    ∷ (codes ".woff2", codes "font/woff2")
    ∷ (codes ".woff", codes "font/woff")
    ∷ (codes ".ttf", codes "font/ttf")
    ∷ (codes ".map", codes "application/json; charset=utf-8")
    ∷ []

abbrev pub first_type : List (Bytes × Bytes) → Bytes → Bytes
first_type [] page = codes "application/octet-stream"
first_type ((ending, type) ∷ ts) page = if ends_with ending page then type else first_type ts page

-- `contentTypeForPath`
unfoldable pub content_type_for_path : Bytes → Bytes
content_type_for_path page = first_type content_types (lower page)

-- `clientSocket`
pub record Socket : Type 0 where
  pub req_page : Bytes
  pub req_signals : List Bytes
  pub c_field : Bytes
  pub req_fields : Map Bytes

abbrev pub cons_first : ℕ → List Bytes → List Bytes
cons_first b [] = (b ∷ []) ∷ []
cons_first b (s ∷ ss) = (b ∷ s) ∷ ss

-- `QString::split`
unfoldable pub split : ℕ → Bytes → List Bytes
split c [] = [] ∷ []
split c (b ∷ s) = let rest = split c s in if b == c then [] ∷ rest else cons_first b rest

-- A field of the URL.
abbrev pub url_field : Bytes → Socket → Socket
url_field [] sk = sk
url_field (b ∷ fld) sk =
    if b == 47
    then record sk { req_page = b ∷ fld }
    else if starts_with (codes "sname") (b ∷ fld)
    then record sk { req_signals = split 38 (b ∷ fld) }
    else sk

abbrev pub url_fields : List Bytes → Socket → Socket
url_fields [] sk = sk
url_fields (fld ∷ flds) sk = url_fields flds (url_field fld sk)

-- `on_url`. `parsed` is what `http_parser_parse_url` gives: whether there is a path, and the texts of
-- all fields. The result is `none` where the callback returns -1.
unfoldable pub on_url : Option (Bool × List Bytes) → Socket → Option Socket
on_url none sk = none
on_url (some (has_path, flds)) sk =
    let cleared : Socket = record sk { req_signals = [] } in
    some (if has_path then url_fields flds cleared else cleared)

unfoldable pub on_header_field : Bytes → Socket → Socket
on_header_field fld sk = record sk { c_field = fld; req_fields = insert fld [] sk.req_fields }

unfoldable pub on_header_value : Bytes → Socket → Socket
on_header_value text sk = record sk { req_fields = insert (sk.c_field) text sk.req_fields }

-- What is told of a signal: its type, and the last time and values.
pub record LastData : Type 0 where
  pub type : ℕ
  pub begin_time : ℕ
  pub vals : List ℕ

abbrev pub last_of : {D : Type 0} → ℕ → SignalData D → LastData
last_of packet_sz sd = record {
  type = sd.type;
  begin_time = sd.last_data.begin_time;
  vals = take packet_sz sd.last_data.vals;
}

module _ {D : Type 0} (get_signal_data : Bytes → Option (SignalData D)) (from_url : Bytes → Bytes)
    (packet_sz : ℕ) where
  abbrev pub with_last : Bytes → Map LastData → Map LastData
  with_last sname m = elim (get_signal_data sname) [
    | none ↦ m
    | some sd ↦ insert sname (last_of packet_sz sd) m
  ]

  -- The loop of `jsonGetLastSignalData` over the parts of the query.
  unfoldable pub last_signal_data : List Bytes → Map LastData → Option (Map LastData)
  last_signal_data [] m = some m
  last_signal_data (spair ∷ ss) m = elim (get_elem? (split 61 spair) 1) [
    | none ↦ none
    | some sname ↦ last_signal_data ss (with_last (from_url sname) m)
  ]

-- What the pages of the interface are made from: the texts that Qt makes of the data.
pub record Pages : Type 0 where
  pub all_signals : Bytes
  pub data_params : Bytes
  pub all_modules : Bytes
  pub last_json : Map LastData → Bytes

abbrev pub crlf : Bytes
crlf = 13 ∷ 10 ∷ []

module _ {D : Type 0} (get_signal_data : Bytes → Option (SignalData D)) (from_url : Bytes → Bytes)
    (packet_sz : ℕ) (pages : Pages) (show : ℕ → Bytes) (file : Bytes → Option Bytes)
    (app_dir : Bytes) where
  abbrev pub api_body : Socket → Option Bytes
  api_body sk =
      if str_eq sk.req_page (codes "/api/allSignals")
      then some pages.all_signals
      else if str_eq sk.req_page (codes "/api/dataParams")
      then some pages.data_params
      else if str_eq sk.req_page (codes "/api/lastSignalData")
      then elim (last_signal_data get_signal_data from_url packet_sz sk.req_signals []) [
        | none ↦ none
        | some m ↦ some (pages.last_json m)
      ]
      else if str_eq sk.req_page (codes "/api/allModules")
      then some pages.all_modules
      else some []

  abbrev pub api_response : Bytes → Bytes
  api_response body =
      codes "HTTP/1.1 200 OK"
      ++ (crlf
          ++ (codes "Content-Type: application/json; charset=utf-8"
              ++ (crlf
                  ++ (codes "Content-Length: "
                      ++ (show (length body)
                          ++ (crlf
                              ++ (codes "Connection: keep-alive" ++ (crlf ++ (crlf ++ body)))))))))

  abbrev pub page_of : Bytes → Bytes
  page_of page = if str_eq page (codes "/") then codes "/index.html" else page

  -- The contents of a file, or nothing.
  abbrev pub html_of : Bytes → Bytes
  html_of page = elim (file (app_dir ++ (codes "/web" ++ page))) [ none ↦ [] | some s ↦ s ]

  abbrev pub page_response : Bytes → Bytes → Bytes
  page_response page html =
      codes "HTTP/1.1 200 OK"
      ++ (crlf
          ++ (codes "Content-Type: "
              ++ (content_type_for_path page
                  ++ (crlf
                      ++ (codes "Connection: keep-alive"
                          ++ (crlf
                              ++ (codes "Content-Length: "
                                  ++ (show (length html) ++ (crlf ++ (crlf ++ html))))))))))

  -- `response`: the socket and what is written to it.
  unfoldable pub response : Socket → Option (Socket × Bytes)
  response sk =
      if starts_with (codes "/api") sk.req_page
      then elim (api_body sk) [ none ↦ none | some body ↦ some (sk, api_response body) ]
      else some (
        record sk { req_page = page_of sk.req_page },
        page_response (page_of sk.req_page) (html_of (page_of sk.req_page)),
      )
