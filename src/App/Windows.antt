-- ===== src/App/Windows.antt =====
-- The windows of src/application.c beside the call: the configuration window, the editor, the menu of
-- the status icon, and the end of `application_run`. How widgets look is left out.
use nanotalk.Base.{
  ℕ, ◌^◌, ◌≤◌, ◌<◌, ◌≡◌, refl, ap, ap₂, ◌∙◌, Bool, true, false, not, Option, none, some, List, [],
  ◌∷◌, ◌++◌, ==_self, bytes_eq_self, arith,
}
use nanotalk.Common.{Bytes, Sodium}
use nanotalk.Common.Text.{Base64, id_to_string}
use nanotalk.App.{App, Media}
use nanotalk.App.Call.{destroy_session}
use nanotalk.App.Config.{
  Network, NetworkFields, to_uint16, same_host, change_port, change_bootstrap, change_media,
  config_apply,
}
use nanotalk.App.Aliases.{is_empty}

-- GTK's spin buttons: the value that a button with a range shows after it has been set.
pub record Toolkit : Type 0 where
  pub spin_value : ℕ → ℕ → ℕ → ℕ

pub record IsToolkit (g : Toolkit) : Type 0 where
  pub in_range :
      (low high value : ℕ) → low ≤ value → value ≤ high → g.spin_value low high value ≡ value

-- What the widgets of the configuration window show.
pub record ConfigWindow : Type 0 where
  pub is_visible : Bool
  pub id_markup : Bytes
  pub typed : NetworkFields
  pub media : Media

pub data MenuItem : Type 0 where
  preferences about quit : MenuItem

-- The windows of `struct _Application` that are made on demand, the main window, and whether
-- `gtk_main` goes on.
pub record Windows : Type 0 where
  pub main_visible : Bool
  pub config_window : Option ConfigWindow
  pub editor_window : Option Bool
  pub status_menu : Option (List MenuItem)
  pub is_running : Bool

-- `application_startup`: only the main window is made.
unfoldable pub startup_windows : Windows
startup_windows = record {
  main_visible = true;
  config_window = none;
  editor_window = none;
  status_menu = none;
  is_running = true;
}

-- `bootstrap_host ?: ""`.
unfoldable pub shown_host : Option Bytes → Bytes
shown_host none = []
shown_host (some host) = host

module _ (g : Toolkit) (b : Base64) where
  -- The label of the client: its identifier between `<b>` and `</b>`.
  unfoldable pub client_label : App → Bytes
  client_label a = 60 ∷ 98 ∷ 62 ∷ (id_to_string b a.client.id ++ (60 ∷ 47 ∷ 98 ∷ 62 ∷ []))

  -- The ports, cut down to `guint16`, and the host.
  unfoldable pub network_widgets : Network → NetworkFields
  network_widgets n = record {
    local_port = g.spin_value 0 0xffff (to_uint16 n.local_port);
    bootstrap_host = shown_host n.bootstrap_host;
    bootstrap_port = g.spin_value 0 0xffff (to_uint16 n.bootstrap_port);
  }

  unfoldable pub media_widgets : Media → Media
  media_widgets m = record {
    audio_bitrate = g.spin_value 4000 650_000 m.audio_bitrate;
    video_bitrate = g.spin_value 0 0x7fff_ffff m.video_bitrate;
    video_enable = m.video_enable;
  }

  -- The window when it is made.
  unfoldable pub config_new : Network → App → ConfigWindow
  config_new n a = record {
    is_visible = true;
    id_markup = client_label a;
    typed = network_widgets n;
    media = media_widgets a.media;
  }

  -- `config_show`: a window that has been made is shown again as it was left.
  unfoldable pub config_show : Network → App → Windows → Windows
  config_show n a w = elim w.config_window [
    | some c ↦ record w { config_window = some (record c { is_visible = true }) }
    | none ↦ record w { config_window = some (config_new n a) }
  ]

  -- The items of the menu: the configuration, a box about the program, and the end of `gtk_main`.
  unfoldable pub menu_activate : MenuItem → Network → App → Windows → Windows
  menu_activate preferences n a w = config_show n a w
  menu_activate about n a w = w
  menu_activate quit n a w = record w { is_running = false }

-- The button `Close`, and `gtk_widget_hide_on_delete`.
unfoldable pub config_hide : Windows → Windows
config_hide w = elim w.config_window [
  | none ↦ w
  | some c ↦ record w { config_window = some (record c { is_visible = false }) }
]

-- `editor_show`: its text view shows the buffer of aliases.
unfoldable pub editor_show : Windows → Windows
editor_show w = record w { editor_window = some true }

-- `menu_popup`: the menu is made once.
unfoldable pub menu_popup : Windows → Windows
menu_popup w = elim w.status_menu [
  | none ↦ record w { status_menu = some (preferences ∷ about ∷ quit ∷ []) }
  | some items ↦ w
]

unfoldable pub window_toggle : Windows → Windows
window_toggle w = record w { main_visible = not w.main_visible }

pub data Widget : Type 0 where
  config_widget editor_widget menu_widget main_widget icon_widget : Widget

unfoldable pub made {ℓ} : {A : Type ℓ} → Option A → Widget → List Widget
made none x = []
made (some a) x = x ∷ []

-- The end of `application_run`: the session that the window has now is destroyed, and each widget
-- that was made.
unfoldable pub cleanup : App → Windows → App × List Widget
cleanup a w = (
  destroy_session a,
  made w.config_window config_widget
      ++ (made w.editor_window editor_widget
          ++ (made w.status_menu menu_widget ++ (main_widget ∷ icon_widget ∷ []))),
)

-- A configuration whose values fit their widgets.
pub record IsShown (n : Network) (m : Media) : Type 0 where
  pub local_port : n.local_port < 2 ^ 16
  pub bootstrap_port : n.bootstrap_port < 2 ^ 16
  pub audio_low : 4000 ≤ m.audio_bitrate
  pub audio_high : m.audio_bitrate ≤ 650_000
  pub video_high : m.video_bitrate < 2 ^ 31

-- What the fields show where each value fits its widget.
abbrev network_fields : Network → NetworkFields
network_fields n = record {
  local_port = n.local_port;
  bootstrap_host = shown_host n.bootstrap_host;
  bootstrap_port = n.bootstrap_port;
}

config_new-typed :
    (g : Toolkit) (b : Base64) (n : Network) (a : App)
    → IsToolkit g
    → IsShown n a.media
    → let c = config_new g b n a in (c.typed ≡ network_fields n) × (c.media ≡ a.media)
unfolding config_new network_widgets media_widgets
config_new-typed g b n a h s =
    let port = λ (p : ℕ) (small : p < 2 ^ 16).
      let whole : to_uint16 p ≡ p = omega (arith, small) in
      h.in_range 0 0xffff (to_uint16 p) (omega arith) (omega arith) ∙ whole in
    let audio = h.in_range 4000 650_000 a.media.audio_bitrate s.audio_low s.audio_high in
    let video =
      h.in_range 0 0x7fff_ffff a.media.video_bitrate (omega arith) (omega (arith, s.video_high)) in
    (
      λ i. record {
        local_port = port n.local_port s.local_port i;
        bootstrap_host = shown_host n.bootstrap_host;
        bootstrap_port = port n.bootstrap_port s.bootstrap_port i;
      },
      λ i. record {
        audio_bitrate = audio i;
        video_bitrate = video i;
        video_enable = a.media.video_enable;
      },
    )

-- The button `Apply` with what the window shows.
abbrev pub pressed_apply :
    Sodium → Bool → ConfigWindow → App → Network → (App × Network) × Option (Bytes × ℕ)
pressed_apply s is_bound c a n = config_apply s is_bound c.typed c.media a n

-- The host of a configuration as it is shown changes only one that has no host, which gets an empty
-- one, and asks for none.
change_bootstrap-shown_host :
    (s : Sodium) (port : ℕ) (host : Option Bytes)
    → port < 2 ^ 16
    → (n : Network) → n.bootstrap_host ≡ host
    → n.bootstrap_port ≡ port
    → change_bootstrap s false (shown_host host) (to_uint16 port) n
      ≡ (record n { bootstrap_host = some (shown_host host) }, none)
unfolding change_bootstrap same_host shown_host is_empty
change_bootstrap-shown_host s port none small n e p =
    let q : to_uint16 port ≡ n.bootstrap_port = omega (arith, small, p) in
    rw (change_bootstrap, e)
      (λ i. (record n { bootstrap_host = some []; bootstrap_port = q i }, none))
change_bootstrap-shown_host s port (some host) small n e p =
    let q : to_uint16 n.bootstrap_port ≡ to_uint16 port = ap to_uint16 p in
    rw (change_bootstrap, e, bytes_eq_self host, q, ==_self (to_uint16 port)) refl

-- `Apply` in a configuration window that has just been made does nothing but give the session its
-- bitrates again, and write an empty bootstrap host into a configuration that has none: the client and
-- the rest of the configuration stay what they are, and no host is asked. It is assumed that the values
-- of the configuration are in the ranges of their widgets, and that a widget of GTK keeps a value
-- in its range.
pub pressed_apply-config_new :
    (g : Toolkit) (b : Base64) (s : Sodium) (is_bound : Bool) (n : Network) (a : App)
    → IsToolkit g
    → IsShown n a.media
    → pressed_apply s is_bound (config_new g b n a) a n ≡ (
      (change_media s a.media a, record n { bootstrap_host = some (shown_host n.bootstrap_host) }),
      none,
    )
unfolding config_apply change_port
pressed_apply-config_new g b s is_bound n a h shown =
    let e = config_new-typed g b n a h shown in
    let small : to_uint16 n.local_port ≡ n.local_port = omega (arith, shown.local_port) in
    ap₂ (λ typed media. config_apply s is_bound typed media a n) e.0 e.1
    ∙ rw
        (
          small,
          ==_self n.local_port,
          change_bootstrap-shown_host s n.bootstrap_port n.bootstrap_host shown.bootstrap_port n
              refl refl,
        )
        refl

-- A configuration window that has been closed is shown again with what was typed.
config_show-hide :
    (g : Toolkit) (b : Base64) (n : Network) (a : App) (c : ConfigWindow) (w : Windows)
    → w.config_window ≡ some c
    → config_show g b n a (config_hide w)
      ≡ record w { config_window = some (record c { is_visible = true }) }
unfolding config_show config_hide
config_show-hide g b n a c w e = ground (arith, e)
