-- ===== src/Settings/Again.antt =====
-- Settings that were normalized and stored are read back as they were.
use pertisk_kube_app.Base.{
  ℕ, suc, ◌+◌, ◌≤◌, String, ◌≡◌, refl, sym, ap, ◌∙◌, Bool, true, false, ◌||◌, inl, inr, Option,
  some, List, [], ◌∷◌, ◌==◌, arith, eq_iff, Bool-cases,
}
use pertisk_kube_app.Base.Json.{Json, num, str, decimal}
use pertisk_kube_app.Base.Lists.{All}
use pertisk_kube_app.Base.Text.{◌<>◌, trim, member}
use pertisk_kube_app.Settings.{
  FeatureThemePreference, auto, dark, EditorVisualSettings, HelmRepository, FeatureSettings,
  default_general, default_terminal, default_yaml_editor, clamp_font_size, normalize_theme,
  or_default, normalize_preset, normalize_repository, normalize_repositories, repositories_of,
  with_legacy, normalize_visual_settings, normalize_fields, normalize_settings, theme_json,
  visual_json, repository_json, repositories_json, settings_json,
}
use pertisk_kube_app.Settings.Normal.{
  Solid, IsNormalVisual, IsNormalRepository, no_repositories, IsNormal, normalize_settings-IsNormal,
}

theme-again : (t : FeatureThemePreference) → normalize_theme (theme_json t) ≡ t
unfolding normalize_theme
theme-again auto = refl
theme-again dark = refl

or_default-Solid : (s fallback : String) → Solid s → or_default (trim s) fallback ≡ s
or_default-Solid s fallback h = rw (h.0, h.1) refl

preset-again :
    (presets : List String) (fallback s : String)
    → (member s presets || s == fallback) ≡ true
    → normalize_preset presets fallback (str s) ≡ s
unfolding normalize_preset
preset-again presets fallback s h = elim (Bool-cases (member s presets)) [
  | inl e ↦ rw e refl
  | inr e ↦ rw e (sym ((eq_iff s fallback).0 (ground arith)))
]

same_bool : (b : Bool) → elim b as (λ x. Bool) [ false ↦ false | true ↦ true ] ≡ b
same_bool true = refl
same_bool false = refl

repository-eq :
    (r : HelmRepository) (id name url : String) (enabled : Bool)
    → id ≡ r.id
    → name ≡ r.name
    → url ≡ r.url
    → enabled ≡ r.enabled
    → record { id = id; name = name; url = url; enabled = enabled } ≡ r
repository-eq r id name url enabled p q u e =
    λ i. record { id = p i; name = q i; url = u i; enabled = e i }

repository-again :
    (index : ℕ) (r : HelmRepository)
    → IsNormalRepository r
    → normalize_repository index (repository_json r) ≡ some r
unfolding normalize_repository
repository-again index r h =
    let with_url : (trim r.url == "") ≡ false = ap (λ t. t == "") h.url.0 ∙ h.url.1 in
    rw with_url (
      ap some (
        repository-eq r _ _ _ _ (or_default-Solid r.id ("repo-" <> decimal (index + 1)) h.id)
          (or_default-Solid r.name ("Repo " <> decimal (index + 1)) h.name) h.url.0
          (same_bool r.enabled)))

repositories-again :
    (index : ℕ) (rs : List HelmRepository)
    → All IsNormalRepository rs
    → normalize_repositories index (repositories_json rs) ≡ rs
unfolding normalize_repositories
repositories-again index [] h = refl
repositories-again index (r ∷ rs) (h, hs) =
    rw (repository-again index r h, normalize_repositories)
      (ap (λ xs. r ∷ xs) (repositories-again (suc index) rs hs))

legacy-again :
    (legacy : String) (rs : List HelmRepository)
    → no_repositories rs ≡ false
    → with_legacy legacy rs ≡ rs
unfolding with_legacy
legacy-again legacy [] h = cc
legacy-again legacy (r ∷ rs) h = refl

clamped : (n fallback : ℕ) → 10 ≤ n → n ≤ 32 → clamp_font_size (some n) fallback ≡ n
unfolding clamp_font_size
clamped n fallback low high = omega arith

visual-eq :
    (v : EditorVisualSettings) (name : String) (size : ℕ) (theme : FeatureThemePreference)
    → name ≡ v.font_name
    → size ≡ v.font_size
    → theme ≡ v.theme
    → record { font_name = name; font_size = size; theme = theme } ≡ v
visual-eq v name size theme p q t = λ i. record { font_name = p i; font_size = q i; theme = t i }

module _ (number_of : Json → Option ℕ) (reads : (n : ℕ) → number_of (num n) ≡ some n) where
  visual-again :
      (v fallback : EditorVisualSettings)
      → IsNormalVisual v
      → normalize_visual_settings number_of (visual_json v) fallback ≡ v
  unfolding normalize_visual_settings
  visual-again v fallback h =
      visual-eq v _ _ _ (or_default-Solid v.font_name fallback.font_name h.font)
        (ap (λ o. clamp_font_size o fallback.font_size) (reads v.font_size)
          ∙ clamped v.font_size fallback.font_size h.least h.most)
        (theme-again v.theme)

  settings-again :
      (app_presets terminal_presets : List String) (s : FeatureSettings)
      → IsNormal app_presets terminal_presets s
      → normalize_settings number_of app_presets terminal_presets (settings_json s) ≡ s
  unfolding normalize_settings normalize_fields settings_json repositories_of
  settings-again app_presets terminal_presets s h = λ i. record {
    general = visual-again s.general default_general h.general i;
    terminal = visual-again s.terminal default_terminal h.terminal i;
    yaml_editor = visual-again s.yaml_editor default_yaml_editor h.yaml_editor i;
    general_theme_preset =
        preset-again app_presets "flux-violet" s.general_theme_preset h.app_preset i;
    terminal_theme_preset =
        preset-again terminal_presets "wild-cherry" s.terminal_theme_preset h.terminal_preset i;
    helm_repo_url = h.repo_url i;
    helm_repositories = again i;
  }
    where
      again :
          with_legacy
            (trim s.helm_repo_url)
            (normalize_repositories 0 (repositories_json s.helm_repositories))
          ≡ s.helm_repositories
      again =
          ap (with_legacy (trim s.helm_repo_url))
            (repositories-again 0 s.helm_repositories h.repositories)
          ∙ legacy-again (trim s.helm_repo_url) s.helm_repositories h.some_repository

  -- Where a number reads as itself: whatever is stored, the settings that are made of it are stored in their
  -- turn, and are read back as they are, however often the application is loaded again.
  pub normalize_settings-again :
      (app_presets terminal_presets : List String) (v : Json)
      → normalize_settings number_of app_presets terminal_presets
          (settings_json (normalize_settings number_of app_presets terminal_presets v))
        ≡ normalize_settings number_of app_presets terminal_presets v
  normalize_settings-again app_presets terminal_presets v =
      settings-again app_presets terminal_presets
        (normalize_settings number_of app_presets terminal_presets v)
        (normalize_settings-IsNormal number_of app_presets terminal_presets v)
