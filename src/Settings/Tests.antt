-- ===== src/Settings/Tests.antt =====
-- The settings that concrete stored values give.
use pertisk_kube_app.Base.{
  ℕ, ◌≡◌, refl, Option, none, some, true, String, List, [], ◌∷◌, if◌then◌else◌,
}
use pertisk_kube_app.Base.Json.{
  Json, null, bool, num, str, arr, obj, nil, cons, end, field, decimal,
}
use pertisk_kube_app.Settings.{normalize_settings, settings_json}
use pertisk_kube_app.Settings.Normal.{IsNormal, normalize_settings-IsNormal}
use pertisk_kube_app.Settings.Again.{normalize_settings-again}

-- Numbers, and the values that Number reads without a text.
abbrev to_number : Json → Option ℕ
to_number (num n) = some n
to_number null = some 0
to_number (bool b) = some (if b then 1 else 0)
to_number _ = none

abbrev presets : List String
presets = "flux-violet" ∷ "ocean" ∷ []

abbrev stored : Json
stored = obj (
    field "general" (obj (field "fontName" (str " Inter ") (field "fontSize" (num 90) end))) (
      field "generalThemePreset" (str "gone") (
        field "helmRepositories"
          (arr (cons null (cons (obj (field "url" (str " https://charts.example/ ") end)) nil)))
          end)))

read_back :
    (normalize_settings to_number presets presets stored).helm_repositories
    ≡ record { id = "repo-2"; name = "Repo 2"; url = "https://charts.example/"; enabled = true }
      ∷ []
unfolding normalize_settings decimal
read_back = refl

font_is_clamped : (normalize_settings to_number presets presets stored).general.font_size ≡ 32
unfolding normalize_settings
font_is_clamped = refl

normalize_settings-IsNormal_example :
    IsNormal presets presets (normalize_settings to_number presets presets stored)
normalize_settings-IsNormal_example = normalize_settings-IsNormal to_number presets presets stored

normalize_settings-again_example :
    normalize_settings to_number presets presets
      (settings_json (normalize_settings to_number presets presets stored))
    ≡ normalize_settings to_number presets presets stored
normalize_settings-again_example =
    normalize_settings-again to_number (λ n. refl) presets presets stored
