-- ===== src/Realtime/Stream/Lines.antt =====
-- No payload holds a newline, so each stays on the line that it is written on.
use compose_monitor.Base.{
  ◌≤◌, true, false, Bool, List, [], ◌∷◌, ◌++◌, Text, bytes, All-append, arith, nat_eq, list_eq,
  list_beq,
}
use compose_monitor.Base.Json.{json_string}
use compose_monitor.Base.Json.Escapes.{IsPrintable, json_string-IsPrintable}
use compose_monitor.Realtime.Stream.{
  RowPayload, ChangePayload, row_json, rows_json, sync_json, html_json, notable_json, change_json,
  action_text,
}
use compose_monitor.Realtime.Stream.Frames.{IsLine}

pub IsPrintable-IsLine : (s : Text) → IsPrintable s → IsLine s
IsPrintable-IsLine [] h = tt
IsPrintable-IsLine (c ∷ s) (h, hs) = (λ e. omega arith, IsPrintable-IsLine s hs)

-- A text without a control character, as a type that names the text.
record Clean (s : Text) : Type 0 where
  printable : IsPrintable s

both : {s t : Text} → Clean s → Clean t → Clean (s ++ t)
both {s} {t} h k = record { printable = All-append (λ c. 0x20 ≤ c) s t h.printable k.printable }

quoted : (s : Text) → Clean (json_string s)
quoted s = record { printable = json_string-IsPrintable s }

literal : (s : Text) → IsPrintable s → Clean s
literal s h = record { printable = h }

row_json-Clean : (p : RowPayload) → Clean (row_json p)
unfolding row_json
row_json-Clean p = both (literal (bytes "{\"id\":") (omega arith)) (
    both (quoted p.id) (
      both (literal (bytes ",\"html\":") (omega arith))
        (both (quoted p.html) (literal (bytes "}") (omega arith)))))

rows_json-Clean : (ps : List RowPayload) → Clean (rows_json ps)
unfolding rows_json
rows_json-Clean [] = literal [] tt
rows_json-Clean (p ∷ []) = row_json-Clean p
rows_json-Clean (p ∷ q ∷ ps) =
    both (row_json-Clean p) (both (literal (bytes ",") (omega arith)) (rows_json-Clean (q ∷ ps)))

pub sync_json-IsLine : (ps : List RowPayload) → IsLine (sync_json ps)
unfolding sync_json
sync_json-IsLine ps =
    let clean : Clean (sync_json ps) =
      both (literal (bytes "{\"services\":[") (omega arith))
        (both (rows_json-Clean ps) (literal (bytes "]}") (omega arith))) in
    IsPrintable-IsLine (sync_json ps) clean.printable

html_json-Clean : (html : Text) → Clean (html_json html)
unfolding html_json list_beq
html_json-Clean [] = literal [] tt
html_json-Clean (c ∷ html) = both (literal (bytes ",\"html\":") (omega arith)) (quoted (c ∷ html))

notable_json-Clean : (b : Bool) → Clean (notable_json b)
notable_json-Clean true = literal (notable_json true) (omega arith)
notable_json-Clean false = literal (notable_json false) (omega arith)

pub change_json-IsLine : (p : ChangePayload) → IsLine (change_json p)
unfolding change_json
change_json-IsLine p =
    let clean : Clean (change_json p) = both (literal (bytes "{\"action\":") (omega arith)) (
      both (quoted (action_text p.action)) (
        both (literal (bytes ",\"id\":") (omega arith)) (
          both (quoted p.id) (
            both (literal (bytes ",\"name\":") (omega arith)) (
              both (quoted p.name)
                (both (html_json-Clean p.html) (notable_json-Clean p.notable))))))) in
    IsPrintable-IsLine (change_json p) clean.printable
