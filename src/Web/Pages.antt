-- ===== src/Web/Pages.antt =====
-- What the handlers of internal/adapters/web answer: a page is the component that is rendered, with
-- its arguments.
use compose_monitor.Base.{ℕ, Bool, List, Text, bytes, ◌==◌, nat_eq, list_eq}
use compose_monitor.Base.Failure.{Failure, error_text}
use compose_monitor.Domain.{Service, Summary, Network, Volume}
use compose_monitor.Domain.Detail.{ServiceDetail, Logs}

-- The question before a removal.
pub record Question : Type 0 where
  pub title : Text
  pub name : Text
  pub consequence : Text
  pub action : Text
  pub back : Text

pub data Page : Type 0 where
  unavailable : (project section cause : Text) → Page
  missing : (project section what : Text) → Page
  service_list : (project : Text) → List Service → Summary → (controllable : Bool) → Page
  service_detail : (project : Text) → ServiceDetail → (controllable : Bool) → Page
  log_body : (id : Text) → Logs → (failure : Text) → Page
  log_page : (project : Text) → ServiceDetail → Logs → (failure : Text) → Page
  confirm : Question → Page
  confirm_page : (project section : Text) → Question → Page
  network_list : (project : Text) → List Network → (controllable : Bool) → Page
  network_detail : (project : Text) → Network → (controllable : Bool) → Page
  volume_list : (project : Text) → List Volume → (controllable : Bool) → Page
  volume_detail : (project : Text) → Volume → (controllable : Bool) → Page
  front : (project : Text) → List Service → Summary → (controllable : Bool) → Page

-- A status and a page.
pub record Answer : Type 0 where
  pub status : ℕ
  pub page : Page

abbrev pub shown : Page → Answer
shown p = record { status = 200; page = p }

-- `unavailable` of the handlers
unfoldable pub unavailable_answer : Text → Text → Failure → Answer
unfolding error_text
unavailable_answer project section cause = record {
  status = 503;
  page = unavailable project section (error_text cause);
}

-- `notFound` of the handlers
unfoldable pub missing_answer : Text → Text → Text → Answer
missing_answer project section what = record { status = 404; page = missing project section what }

-- What the handlers of pages read of a request: the ID or the name in the path, the path, the header
-- HX-Request and the query's tail, which are empty where they are missing.
pub record PageRequest : Type 0 where
  pub id : Text
  pub path : Text
  pub hx_request : Text
  pub tail : Text

-- `isFragment`
unfoldable pub is_fragment : PageRequest → Bool
is_fragment r = r.hx_request == bytes "true"
