-- ===== src/Tabs/FullScreen.antt =====
-- The full screen of the bottom panel, and the ways out of it.
use pertisk_kube_app.Base.{◌-◌, ℕ, String, ◌≡◌, true, false, none, arith}
use pertisk_kube_app.Tabs.Panel.{
  BottomPanel, no_tabs, toggle_full_screen, full_screen_clicked, escape_pressed, step,
}

-- In full screen, or out of it: the button leads back to the height and the collapse that were there
-- before, and the Escape key to neither: it leaves the panel as high as the window but 32 pixels.
pub full_screen_exits :
    (default_yaml : String) (inner_height inner_height' : ℕ) (p : BottomPanel)
    → p.full_screen ≡ false
    → no_tabs p.tabs ≡ false
    → let full = step default_yaml (full_screen_clicked inner_height) p in
      let back = step default_yaml (full_screen_clicked inner_height') full in
      let out = step default_yaml escape_pressed full in
      (full.full_screen ≡ true)
      × (back ≡ record p { saved_before = none })
      × (out.full_screen ≡ false)
      × (out.height ≡ inner_height - 32)
      × (out.collapsed ≡ false)
unfolding step toggle_full_screen
full_screen_exits d inner inner' p off filled = ground arith
