-- ===== src/App.antt =====
-- The window of src/application.c: the fields of `Application`, the properties of widgets that the code
-- tests, and the tables of aliases. A text is the list of its bytes. That a widget exists, how it
-- looks and what is shown of a peer count are left out.
pub mod Aliases
pub mod Call
pub mod Config
pub mod Windows
pub mod Steps
pub mod Orderly
pub mod Reach
pub mod Moves
pub mod OneCaller
pub mod Ready
pub mod Lost
use nanotalk.Base.{
  ℕ, Bool, true, false, Option, none, some, List, [], ◌∷◌, ◌==◌, if◌then◌else◌, bytes_eq,
}
use nanotalk.Common.{Bytes, DhtId}
use nanotalk.Client.{Client, set_listen}
use nanotalk.Session.{Session}

-- A hash table with its entries, a key once.
unfoldable pub find_entry {ℓ} : {A : Type ℓ} → Bytes → List (Bytes × A) → Option A
find_entry key [] = none
find_entry key ((k, x) ∷ rest) = if bytes_eq k key then some x else find_entry key rest

unfoldable pub store_entry {ℓ} : {A : Type ℓ} → Bytes → A → List (Bytes × A) → List (Bytes × A)
store_entry key x [] = (key, x) ∷ []
store_entry key x ((k, y) ∷ rest) =
    if bytes_eq k key then (k, x) ∷ rest else (k, y) ∷ store_entry key x rest

-- The group `media` of the configuration.
pub record Media : Type 0 where
  pub audio_bitrate : ℕ
  pub video_bitrate : ℕ
  pub video_enable : Bool

-- A dialog that `gtk_dialog_run` waits for, and its response, `true` for `GTK_RESPONSE_YES`.
pub record Dialog : Type 0 where
  pub number : ℕ
  pub response : Option Bool

-- `struct _Application`. Sessions and dialogs are numbered. `sessions` are those that have not been
-- destroyed, `destroyed` the others; `dialogs` are those that `gtk_dialog_run` waits for, the innermost
-- first; `queued` counts the sources of `dialog_run` in the main loop; `calls` are the results that
-- `lookup_finished_cb` is still to be called with; `is_modified` is the flag of the text buffer.
pub record App : Type 0 where
  pub main_entry : Bytes
  pub start_sensitive : Bool
  pub stop_sensitive : Bool
  pub volume : ℕ
  pub call_dialog : Option ℕ
  pub dialogs : List Dialog
  pub queued : ℕ
  pub aliases_buffer : Bytes
  pub is_modified : Bool
  pub aliases_list : List Bytes
  pub alias2id_table : List (Bytes × DhtId)
  pub id2alias_table : List (DhtId × Bytes)
  pub client : Client
  pub calls : List ℕ
  pub media : Media
  pub session : Option ℕ
  pub sessions : List (ℕ × Session)
  pub destroyed : List (ℕ × Session)
  pub next_session : ℕ
  pub next_dialog : ℕ
  pub next_call : ℕ

-- `DEFAULT_AUDIO_BITRATE`, `DEFAULT_VIDEO_BITRATE` and `DEFAULT_VIDEO_ENABLE`, which `application_run`
-- sets where the configuration has no group `media`.
unfoldable pub default_media : Option Media → Media
default_media (some media) = media
default_media none = record { audio_bitrate = 64000; video_bitrate = 256000; video_enable = false }

-- `application_run` and `application_startup`, before the aliases are loaded.
unfoldable pub startup : Client → Option Media → App
startup client media = record {
  main_entry = [];
  start_sensitive = true;
  stop_sensitive = false;
  volume = 1;
  call_dialog = none;
  dialogs = [];
  queued = 0;
  aliases_buffer = [];
  is_modified = false;
  aliases_list = [];
  alias2id_table = [];
  id2alias_table = [];
  client = set_listen true client;
  calls = [];
  media = default_media media;
  session = none;
  sessions = [];
  destroyed = [];
  next_session = 0;
  next_dialog = 0;
  next_call = 0;
}

-- The sessions by their numbers.
unfoldable pub find_session : ℕ → List (ℕ × Session) → Option Session
find_session n [] = none
find_session n ((m, x) ∷ rest) = if m == n then some x else find_session n rest

unfoldable pub modify_session : ℕ → (Session → Session) → List (ℕ × Session) → List (ℕ × Session)
modify_session n f [] = []
modify_session n f ((m, x) ∷ rest) =
    if m == n then (m, f x) ∷ rest else (m, x) ∷ modify_session n f rest

unfoldable pub remove_session : ℕ → List (ℕ × Session) → List (ℕ × Session)
remove_session n [] = []
remove_session n ((m, x) ∷ rest) = if m == n then rest else (m, x) ∷ remove_session n rest
