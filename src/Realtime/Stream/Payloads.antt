-- ===== src/Realtime/Stream/Payloads.antt =====
-- A reader of the payload of a change, as a JSON object with its members in the order in which they
-- are written, and what it reads from the handler's payloads.
use compose_monitor.Base.{
  ◌≡◌, refl, ◌∙◌, ap, Bool, true, false, [], ◌∷◌, ◌++◌, Option, none, some, Text, bytes, ◌==◌,
  nat_eq, list_eq, list_beq, if◌then◌else◌, strip_prefix, beq_refl,
}
use mathlib.Core.List.{append_assoc}
use compose_monitor.Base.Json.{json_string}
use compose_monitor.Base.Json.Reading.{plain, read_string}
use compose_monitor.Base.Json.RoundTrip.{is_utf8, read_string-json_string}
use compose_monitor.Domain.{Action, added, updated, removed}
use compose_monitor.Realtime.Hub.{◌>>=◌}
use compose_monitor.Realtime.Stream.{
  ChangePayload, change_json, html_json, action_text, notable_json,
}

-- A string, and what follows it.
unfoldable pub read_text : Text → Option (Text × Text)
unfolding strip_prefix read_string
read_text s = do body ← strip_prefix s (bytes "\""); read_string plain body

unfoldable pub read_action : Text → Option Action
read_action s =
    if s == bytes "added"
    then some added
    else if s == bytes "updated"
    then some updated
    else if s == bytes "removed"
    then some removed
    else none

unfoldable pub after : Text → Text → Option (Text × Text)
unfolding strip_prefix read_text
after literal s = do rest ← strip_prefix s literal; read_text rest

-- The markup may be missing.
unfoldable pub read_html : Text → Option (Text × Text)
unfolding strip_prefix read_text
read_html s = elim (strip_prefix s (bytes ",\"html\":")) [
  | none ↦ some ([], s)
  | some rest ↦ read_text rest
]

unfoldable pub read_notable : Text → Option Bool
read_notable s =
    if s == notable_json true
    then some true
    else if s == notable_json false
    then some false
    else none

-- The members, each before those that stand behind it.
unfoldable pub read_flags : Action → Text → Text → Text → Option ChangePayload
unfolding read_html read_notable
read_flags action id name s = do
  (html, s') ← read_html s
  notable ← read_notable s'
  some (record { action = action; id = id; name = name; html = html; notable = notable })

unfoldable pub read_name : Action → Text → Text → Option ChangePayload
unfolding after read_flags
read_name action id s = do (name, s') ← after (bytes ",\"name\":") s; read_flags action id name s'

unfoldable pub read_id : Action → Text → Option ChangePayload
unfolding after read_name
read_id action s = do (id, s') ← after (bytes ",\"id\":") s; read_name action id s'

unfoldable pub read_change : Text → Option ChangePayload
unfolding after read_action read_id
read_change s = do
  (word, s') ← after (bytes "{\"action\":") s
  action ← read_action word
  read_id action s'

pub strip_prefix-append : (p s : Text) → strip_prefix (p ++ s) p ≡ some s
unfolding strip_prefix
strip_prefix-append [] s = refl
strip_prefix-append (c ∷ p) s = rw (beq_refl c) (strip_prefix-append p s)

read_text-json_string :
    (s rest : Text) → is_utf8 0 s ≡ true → read_text (json_string s ++ rest) ≡ some (s, rest)
unfolding read_text strip_prefix
read_text-json_string s rest valid =
    let (body, whole, read) = read_string-json_string s rest valid in ap read_text whole ∙ read

pub after-append :
    (literal s rest : Text)
    → is_utf8 0 s ≡ true
    → after literal (literal ++ (json_string s ++ rest)) ≡ some (s, rest)
unfolding after
after-append literal s rest valid =
    ap (λ o. o >>= read_text) (strip_prefix-append literal (json_string s ++ rest))
    ∙ read_text-json_string s rest valid

read_action-action_text : (a : Action) → read_action (action_text a) ≡ some a
unfolding read_action list_beq
read_action-action_text added = refl
read_action-action_text updated = refl
read_action-action_text removed = refl

action_text-is_utf8 : (a : Action) → is_utf8 0 (action_text a) ≡ true
unfolding is_utf8
action_text-is_utf8 added = refl
action_text-is_utf8 updated = refl
action_text-is_utf8 removed = refl

read_notable-notable_json : (b : Bool) → read_notable (notable_json b) ≡ some b
unfolding read_notable list_beq
read_notable-notable_json true = refl
read_notable-notable_json false = refl

read_html-given : (t : Text) → read_html (bytes ",\"html\":" ++ t) ≡ read_text t
unfolding read_html
read_html-given t = refl

read_html-html_json :
    (html : Text) (b : Bool)
    → is_utf8 0 html ≡ true
    → read_html (html_json html ++ notable_json b) ≡ some (html, notable_json b)
unfolding read_html html_json list_beq
read_html-html_json [] true valid = refl
read_html-html_json [] false valid = refl
read_html-html_json (c ∷ html) b valid =
    ap read_html (append_assoc (bytes ",\"html\":") (json_string (c ∷ html)) (notable_json b))
    ∙ read_html-given (json_string (c ∷ html) ++ notable_json b)
    ∙ read_text-json_string (c ∷ html) (notable_json b) valid

module _ (p : ChangePayload) (valid : is_utf8 0 p.html ≡ true) where
  flags : Text
  flags = html_json p.html ++ notable_json p.notable

  read_flags-flags : read_flags p.action p.id p.name flags ≡ some p
  unfolding read_flags flags
  read_flags-flags =
      rw
        (
          read_html-html_json p.html p.notable valid,
          read_flags,
          read_notable-notable_json p.notable,
          ◌>>=◌,
        )
        refl

pub read_change-change_json :
    (p : ChangePayload)
    → is_utf8 0 p.id ≡ true
    → is_utf8 0 p.name ≡ true
    → is_utf8 0 p.html ≡ true
    → read_change (change_json p) ≡ some p
unfolding read_change read_id read_name change_json flags
read_change-change_json p h i j =
    let named = json_string p.name ++ flags p j in
    let known = json_string p.id ++ (bytes ",\"name\":" ++ named) in
    rw
      (
        after-append (bytes "{\"action\":") (action_text p.action) (bytes ",\"id\":" ++ known)
            (action_text-is_utf8 p.action),
        ◌>>=◌,
        read_action-action_text p.action,
        ◌>>=◌,
      )
      (rw (after-append (bytes ",\"id\":") p.id (bytes ",\"name\":" ++ named) h, ◌>>=◌)
        (rw (after-append (bytes ",\"name\":") p.name (flags p j) i, ◌>>=◌) (read_flags-flags p j)))
