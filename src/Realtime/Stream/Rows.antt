-- ===== src/Realtime/Stream/Rows.antt =====
-- A reader of the payload of the first frame, and what it reads from the handler's.
use compose_monitor.Base.{
  ℕ, zero, suc, ◌≡◌, ◌<◌, refl, ◌∙◌, ap, true, List, [], ◌∷◌, ◌++◌, Option, none, some, Text, bytes,
  strip_prefix, arith, All, length, length-append,
}
use mathlib.Core.List.{append_assoc}
use compose_monitor.Base.Json.{json_string}
use compose_monitor.Base.Json.RoundTrip.{is_utf8}
use compose_monitor.Realtime.Hub.{◌>>=◌}
use compose_monitor.Realtime.Stream.{RowPayload, row_json, rows_json, sync_json}
use compose_monitor.Realtime.Stream.Payloads.{after, after-append}

unfoldable pub read_row : Text → Option (RowPayload × Text)
unfolding after strip_prefix
read_row s = do
  (id, s₁) ← after (bytes "{\"id\":") s
  (html, s₂) ← after (bytes ",\"html\":") s₁
  s₃ ← strip_prefix s₂ (bytes "}")
  some (record { id = id; html = html }, s₃)

-- The rows up to the end of the payload; there are no more than the payload has bytes.
unfoldable pub read_rows : ℕ → Text → Option (List RowPayload)
unfolding read_row strip_prefix
read_rows zero s = none
read_rows (suc fuel) s = do
  (p, s') ← read_row s
  elim (strip_prefix s' (bytes ",")) [
    | some more ↦ do ps ← read_rows fuel more; some (p ∷ ps)
    | none ↦ do end ← strip_prefix s' (bytes "]}"); some (p ∷ [])
  ]

unfoldable pub read_list : Text → Option (List RowPayload)
unfolding read_rows strip_prefix
read_list s = elim (strip_prefix s (bytes "]}")) [
  | some end ↦ some []
  | none ↦ read_rows (length s) s
]

unfoldable pub read_sync : Text → Option (List RowPayload)
unfolding read_list strip_prefix
read_sync s = do rows ← strip_prefix s (bytes "{\"services\":["); read_list rows

abbrev pub IsTextRow : RowPayload → Type 0
IsTextRow p = (is_utf8 0 p.id ≡ true) × (is_utf8 0 p.html ≡ true)

row_json-append :
    (p : RowPayload) (rest : Text)
    → row_json p ++ rest
      ≡ bytes "{\"id\":"
        ++ (json_string p.id ++ (bytes ",\"html\":" ++ (json_string p.html ++ (bytes "}" ++ rest))))
unfolding row_json
row_json-append p rest = simp append_assoc

read_row-row_json :
    (p : RowPayload) (rest : Text) → IsTextRow p → read_row (row_json p ++ rest) ≡ some (p, rest)
unfolding read_row
read_row-row_json p rest (h, i) =
    let tail = json_string p.html ++ (bytes "}" ++ rest) in
    ap read_row (row_json-append p rest)
    ∙ rw (after-append (bytes "{\"id\":") p.id (bytes ",\"html\":" ++ tail) h, ◌>>=◌)
        (rw (after-append (bytes ",\"html\":") p.html (bytes "}" ++ rest) i, ◌>>=◌) refl)

read_rows-rows_json :
    (fuel : ℕ) (p : RowPayload) (ps : List RowPayload)
    → length ps < fuel
    → All IsTextRow (p ∷ ps)
    → read_rows fuel (rows_json (p ∷ ps) ++ bytes "]}") ≡ some (p ∷ ps)
unfolding read_rows rows_json
read_rows-rows_json zero p ps h v = elim h [ ]
read_rows-rows_json (suc fuel) p [] h (v, vs) =
    rw (read_row-row_json p (bytes "]}") v, ◌>>=◌) (unfold strip_prefix in refl)
read_rows-rows_json (suc fuel) p (q ∷ ps) h (v, vs) =
    let more = rows_json (q ∷ ps) ++ bytes "]}" in
    ap (read_rows (suc fuel))
      (append_assoc (row_json p) (bytes "," ++ rows_json (q ∷ ps)) (bytes "]}"))
    ∙ rw (read_row-row_json p (bytes "," ++ more) v, ◌>>=◌)
        (rw (read_rows-rows_json fuel q ps (omega arith) vs, ◌>>=◌) refl)

length-rows_json : (p : RowPayload) (ps : List RowPayload) → length ps < length (rows_json (p ∷ ps))
unfolding rows_json row_json
length-rows_json p [] = omega arith
length-rows_json p (q ∷ ps) = omega (
  arith,
  length-append (row_json p) (bytes "," ++ rows_json (q ∷ ps)),
  length-append (bytes ",") (rows_json (q ∷ ps)),
  length-rows_json q ps,
)

read_sync-read_list :
    (ps : List RowPayload) → read_sync (sync_json ps) ≡ read_list (rows_json ps ++ bytes "]}")
unfolding read_sync sync_json
read_sync-read_list ps = refl

read_list-rows :
    (s : Text) → strip_prefix s (bytes "]}") ≡ none → read_list s ≡ read_rows (length s) s
unfolding read_list
read_list-rows s e = rw (e, read_list) refl

no_end :
    (p : RowPayload) (ps : List RowPayload)
    → strip_prefix (rows_json (p ∷ ps) ++ bytes "]}") (bytes "]}") ≡ none
unfolding rows_json row_json strip_prefix
no_end p [] = refl
no_end p (q ∷ ps) = refl

-- What the browser reads from the first frame's payload are the rows, in their order, for texts
-- that are UTF-8.
pub read_sync-sync_json :
    (ps : List RowPayload) → All IsTextRow ps → read_sync (sync_json ps) ≡ some ps
unfolding read_list rows_json
read_sync-sync_json [] v = read_sync-read_list []
read_sync-sync_json (p ∷ ps) v =
    let whole = rows_json (p ∷ ps) ++ bytes "]}" in
    read_sync-read_list (p ∷ ps)
    ∙ read_list-rows whole (no_end p ps)
    ∙ read_rows-rows_json (length whole) p ps
        (omega (arith, length-append (rows_json (p ∷ ps)) (bytes "]}"), length-rows_json p ps)) v
