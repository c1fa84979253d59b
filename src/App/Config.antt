-- ===== src/App/Config.antt =====
-- `config_apply` of src/application.c. The fields of the window are what the user has typed there;
-- writing the configuration file is left out.
use nanotalk.Base.{
  ℕ, ◌%◌, ◌^◌, ◌≡◌, refl, sym, ap, ◌∙◌, inl, inr, Bool, true, false, not, ◌&&◌, ◌||◌, Option, none,
  some, List, [], ◌==◌, if◌then◌else◌, if_both, Option-cases, bytes_eq,
}
use nanotalk.Common.{Bytes, DhtKey, SocketAddress, Sodium, key_make_public, id_from_pubkey}
use nanotalk.Bucket.{init_table}
use nanotalk.Client.{Client, Effect, new_client, set_listen}
use nanotalk.Client.Lookup.{bootstrap}
use nanotalk.Session.{set_property, prop_audio_bitrate, prop_video_bitrate}
use nanotalk.App.{App, Media, modify_session}
use nanotalk.App.Aliases.{is_empty}

-- The group `network` of the configuration: its integers as 32 bits, 0 without a key, and the text of
-- the host, none without its key.
pub record Network : Type 0 where
  pub local_port : ℕ
  pub bootstrap_host : Option Bytes
  pub bootstrap_port : ℕ

-- What the fields for the network show.
pub record NetworkFields : Type 0 where
  pub local_port : ℕ
  pub bootstrap_host : Bytes
  pub bootstrap_port : ℕ

-- `guint16`.
abbrev pub to_uint16 : ℕ → ℕ
to_uint16 n = n % 2 ^ 16

-- `g_strcmp0(host, prev) == 0`: no text is equal to NULL, not even the empty one.
unfoldable pub same_host : Bytes → Option Bytes → Bool
same_host host none = false
same_host host (some prev) = bytes_eq host prev

module _ (s : Sodium) where
  -- Another local port: a new client with the key of the old one takes its place, if it can be bound.
  unfoldable pub change_port : Bool → ℕ → App × Network → (App × Network) × Bool
  change_port is_bound local_port (a, n) =
      if local_port == n.local_port
      then ((a, n), false)
      else let client = new_client s a.client.privkey in
        if is_bound
        then (
          (
            record a { client = set_listen a.client.listen client },
            record n { local_port = local_port },
          ),
          true,
        )
        else ((a, n), false)

  -- The host that is asked for, if there is one to ask.
  unfoldable pub change_bootstrap : Bool → Bytes → ℕ → Network → Network × Option (Bytes × ℕ)
  change_bootstrap need_bootstrap host port n =
      if need_bootstrap
        || (not (same_host host n.bootstrap_host) || not (port == to_uint16 n.bootstrap_port))
      then (
        record n { bootstrap_host = some host; bootstrap_port = port },
        if not (is_empty host) && not (port == 0) then some (host, port) else none,
      )
      else (n, none)

  unfoldable pub change_media : Media → App → App
  change_media media a = elim a.session [
    | none ↦ record a { media = media }
    | some k ↦ record a {
      media = media;
      sessions =
          modify_session k
            (λ x.
              set_property prop_video_bitrate media.video_bitrate
                (set_property prop_audio_bitrate media.audio_bitrate x))
            a.sessions;
    }
  ]

  -- `config_apply`: the window, the configuration, and the name that is resolved.
  unfoldable pub config_apply :
      Bool → NetworkFields → Media → App → Network → (App × Network) × Option (Bytes × ℕ)
  config_apply is_bound typed media a n =
      let ((a1, n1), need_bootstrap) = change_port is_bound (to_uint16 typed.local_port) (a, n) in
      let (n2, request) =
        change_bootstrap need_bootstrap typed.bootstrap_host (to_uint16 typed.bootstrap_port) n1 in
      ((change_media media a1, n2), request)

-- `resolver_finish_cb`.
unfoldable pub resolver_finish : (ℕ → DhtKey) → Option SocketAddress → App → App × List Effect
resolver_finish randombytes none a = (a, [])
resolver_finish randombytes (some address) a =
    let (client, effects) = bootstrap randombytes address a.client in
    (record a { client = client }, effects)

-- The public key and the identifier of a client are those of its private key.
abbrev pub HasIdentity : Sodium → Client → Type 0
HasIdentity s c = (c.pubkey ≡ key_make_public s c.privkey) × (c.id ≡ id_from_pubkey s c.pubkey)

abbrev Keeps : Sodium → App → App → Type 0
Keeps s a a' =
    HasIdentity s a'.client
    × (a'.client.id ≡ a.client.id)
    × (a'.client.privkey ≡ a.client.privkey)
    × (a'.client.listen ≡ a.client.listen)

module _ (s : Sodium) where
  change_port_lem :
      (is_bound : Bool) (local_port : ℕ) (a : App) (n : Network)
      → HasIdentity s a.client
      → Keeps s a (change_port s is_bound local_port (a, n)).0.0
  change_port_lem is_bound local_port a n h =
      let P = λ (p : (App × Network) × Bool). Keeps s a p.0.0 in
      let same : Keeps s a a = (h, refl, refl, refl) in
      let renewed : App = record a {
        client = set_listen a.client.listen (new_client s a.client.privkey);
      } in
      let kept : Keeps s a renewed =
        unfold new_client set_listen init_table in
        ((refl, refl), ap (id_from_pubkey s) (sym h.0) ∙ sym h.1, refl, refl) in
      unfold change_port in
      if_both P (local_port == n.local_port) _ _ same (if_both P is_bound _ _ kept same)

  change_media_lem :
      (media : Media) (a a0 : App) → Keeps s a0 a → Keeps s a0 (change_media s media a)
  change_media_lem media a a0 k = elim (Option-cases a.session) [
    | inl e ↦ unfold change_media in rw (change_media, e) k
    | inr (m, e) ↦ unfold change_media in rw (change_media, e) k
  ]

-- Applying a configuration, whether the port changes or not and whether the new client can be bound
-- or not, keeps the identifier of a client with an identity, and its private key and whether it listens.
pub config_apply_identity :
    (s : Sodium) (is_bound : Bool) (typed : NetworkFields) (media : Media) (a : App) (n : Network)
    → HasIdentity s a.client
    → let c = (config_apply s is_bound typed media a n).0.0.client in
      HasIdentity s c
      × (c.id ≡ a.client.id)
      × (c.privkey ≡ a.client.privkey)
      × (c.listen ≡ a.client.listen)
unfolding config_apply
config_apply_identity s is_bound typed media a n h =
    let port = to_uint16 typed.local_port in
    let p = change_port s is_bound port (a, n) in
    change_media_lem s media p.0.0 a (change_port_lem s is_bound port a n h)
