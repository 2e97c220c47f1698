-- ===== src/Restart/Tests.antt =====
-- Restarts against a server that answers for a few workloads.
use pertisk_kube_app.Base.{
  ℕ, String, ◌≡◌, refl, false, none, some, List, [], ◌∷◌, if◌then◌else◌, ◌==◌,
}
use pertisk_kube_app.Base.Json.{Json, str, obj, Fields, end, field}
use pertisk_kube_app.Restart.Document.{restart_document}
use pertisk_kube_app.Restart.Document.Kept.{IsTemplated, Restarted, restart_document-Restarted}
use pertisk_kube_app.Restart.Requests.{
  Outcome, returned, thrown, Workload, HttpResponse, Request, restart_one, failure_message,
}
use pertisk_kube_app.Restart.All.{restart_lists, restart_all}
use pertisk_kube_app.Restart.All.Accounts.{Reports, restart_lists-Reports}
use pertisk_kube_app.Restart.Told.{refusal, restart_all-refusal}

abbrev answer : ℕ → String → HttpResponse
answer status text = record {
  status = status;
  status_text = "";
  text = text;
  message = none;
  workloads = none;
  report = none;
}

-- The server restarts the deployment `web` only, and refuses all else.
abbrev server : Request → Unit {0} → Outcome HttpResponse × Unit {0}
server (restart_one ns name) s = (returned (answer (if name == "web" then 200 else 503) ""), s)
server _ s = (returned (answer 500 "the backend is upgraded"), s)

abbrev no_parser : String → Outcome Json
no_parser text = thrown "no YAML"

abbrev no_writer : Json → String
no_writer v = ""

abbrev apps : List Workload
apps =
    record { namespace = some "shop"; name = "web" }
    ∷ record { namespace = some "shop"; name = "db" }
    ∷ record { namespace = some "other"; name = "web" }
    ∷ []

counts :
    let r =
      (restart_lists server no_parser no_writer "TypeError" "now"
        ("shop " ∷ [])
        apps
        []
        []
        []
        tt).0 in
    (r.deployments ≡ 1) × (r.total ≡ 1) × (r.success ≡ false)
unfolding restart_lists
counts = (refl, refl, refl)

restart_lists-Reports_example :
    let out =
      restart_lists server no_parser no_writer "TypeError" "now" ("shop " ∷ []) apps [] [] [] tt in
    Reports server no_parser no_writer "TypeError" "now" ("shop " ∷ []) apps [] [] [] tt out.0 out.1
restart_lists-Reports_example =
    restart_lists-Reports server no_parser no_writer "TypeError" "now" ("shop " ∷ []) apps [] [] []
      tt

-- The text of the answer is not shown.
text_is_lost :
    failure_message (answer 500 "the backend is upgraded") ≡ "Failed to restart workloads (500)"
unfolding failure_message
text_is_lost = refl

restart_all-refusal_example :
    restart_all server no_parser no_writer "TypeError" "now" [] tt
    ≡ (thrown (refusal 500 "" none), tt)
restart_all-refusal_example =
    restart_all-refusal server no_parser no_writer "TypeError" "now" [] tt tt
      (answer 500 "the backend is upgraded") refl refl refl refl

abbrev manifest : Fields
manifest =
    field "metadata" (obj (field "name" (str "db") (field "uid" (str "7") end)))
      (field "spec" (obj (field "template" (obj end) end)) (field "status" (str "Running") end))

sent_back :
    restart_document "now" (obj manifest)
    ≡ some (
        obj (
          field "metadata" (obj (field "name" (str "db") end)) (
            field "spec"
              (obj (
                field "template"
                  (obj (
                    field "metadata"
                      (obj (
                        field "annotations"
                          (obj (field "kubectl.kubernetes.io/restartedAt" (str "now") end))
                          end))
                      end))
                  end))
              end)))
unfolding restart_document
sent_back = refl

manifest-IsTemplated : IsTemplated (obj manifest)
manifest-IsTemplated = record { spec = tt; template = tt; metadata = tt; annotations = tt }

restart_document-Restarted_example :
    (after : Json) × (restart_document "now" (obj manifest) ≡ some after)
    × Restarted "now" (obj manifest) after
restart_document-Restarted_example = restart_document-Restarted "now" manifest manifest-IsTemplated
