-- ===== src/Display/Colours.antt =====
-- The colours of the statuses that the rows of pods and jobs have.
use pertisk_kube_app.Base.{
  String, ◌≡◌, refl, Bool, true, false, List, [], ◌∷◌, ltb, leb, if◌then◌else◌,
}
use pertisk_kube_app.Base.Text.{member}
use pertisk_kube_app.Base.Distinct.{All-member}
use pertisk_kube_app.Pods.Status.{is_error_reason, error_waiting_reasons}
use pertisk_kube_app.Resources.Kind.{RawItem}
use pertisk_kube_app.Workloads.Shared.{positive_or}
use pertisk_kube_app.Workloads.{JobObject, transform_job, job_status}
use pertisk_kube_app.Display.{green, yellow, red, gray, status_colour}

abbrev pub red_reasons : List String
red_reasons =
    "CrashLoopBackOff" ∷ "ImagePullBackOff" ∷ "ErrImagePull" ∷ "CreateContainerConfigError" ∷ []

-- Of the nine reasons for which a running pod is shown as failing, four are shown in red and the
-- others in gray.
status_colour-is_error_reason :
    (reason : String)
    → is_error_reason reason ≡ true
    → status_colour reason ≡ (if member reason red_reasons then red else gray)
unfolding is_error_reason status_colour
status_colour-is_error_reason reason h =
    All-member (λ r. status_colour r ≡ (if member r red_reasons then red else gray))
      error_waiting_reasons reason
      (refl, (refl, (refl, (refl, (refl, (refl, (refl, (refl, (refl, tt))))))))) h

colour-words :
    (a b c : Bool)
    → status_colour
        (if a then "Complete" else if b then "Failed" else if c then "Running" else "Pending")
      ≡ (if a then gray else if b then red else if c then green else yellow)
unfolding status_colour
colour-words true b c = refl
colour-words false true c = refl
colour-words false false true = refl
colour-words false false false = refl

-- The colour of a job's status: a job with all its completions is gray, one with a failed pod red, one
-- with an active pod green, and any other yellow.
status_colour-transform_job :
    (raw : RawItem JobObject)
    → status_colour (transform_job raw).status ≡ (
        if leb (positive_or raw.body.completions 1) (positive_or raw.body.succeeded 0)
        then gray
        else if ltb 0 (positive_or raw.body.failed 0)
        then red
        else if ltb 0 (positive_or raw.body.active 0)
        then green
        else yellow)
unfolding transform_job job_status
status_colour-transform_job raw =
    colour-words (leb (positive_or raw.body.completions 1) (positive_or raw.body.succeeded 0))
      (ltb 0 (positive_or raw.body.failed 0)) (ltb 0 (positive_or raw.body.active 0))
