-- ===== src/Tests/Window.antt =====
-- The window at concrete inputs, with a stand-in for base64: 20 bytes are shifted and filled up with `=`.
use nanotalk.Base.{
  ℕ, zero, suc, ◌+◌, ◌-◌, ◌≡◌, refl, ap, ap₂, ◌∙◌, Bool, true, false, none, some, [], ◌∷◌, ◌++◌,
  ◌==◌, if◌then◌else◌, ltb, get_or, replicate, take, length, length-append, take-append_left, All,
  All-append, arith,
}
use nanotalk.Common.{Bytes, DhtId, DhtKey, key_size, key_make_public, id_from_pubkey}
use nanotalk.Common.Text.{
  Base64, IsBase64, id_from_string, id_to_string, id_from_string-id_to_string,
}
use nanotalk.Bucket.{init_table}
use nanotalk.Client.{Client, new_client, set_listen}
use nanotalk.App.{App, startup, default_media}
use nanotalk.App.Call.{call_stop, new_connection, open_session}
use nanotalk.App.Steps.{AppSteps, moves, stops, arrives, here, later}
use nanotalk.App.Orderly.{IsOrderly}
use nanotalk.App.OneCaller.{one_caller-IsOrderly}
use nanotalk.App.Ready.{IsReady, window-IsReady}
use nanotalk.App.Lost.{is_live, is_current, second_caller_loses}
use nanotalk.App.Aliases.{strip_start, strip_end, is_empty, completion_update}
use nanotalk.App.Aliases.Lines.{IsKnown, completion_update-IsKnown}
use nanotalk.App.Windows.{
  shown_host, Toolkit, IsToolkit, config_new, pressed_apply, pressed_apply-config_new,
}
use nanotalk.App.Config.{
  change_media, Network, NetworkFields, HasIdentity, config_apply, config_apply_identity,
}
use nanotalk.Start.{load_key, file_after, load_key_stable}
use nanotalk.Tests.{toy}

abbrev shift : Bytes → Bytes
shift [] = []
shift (x ∷ xs) = (x + 11) ∷ shift xs

abbrev unshift : Bytes → Bytes
unshift [] = []
unshift (x ∷ xs) = (x - 11) ∷ unshift xs

length-shift : (xs : Bytes) → length (shift xs) ≡ length xs
length-shift [] = refl
length-shift (x ∷ xs) = ap suc (length-shift xs)

unshift-shift : (xs : Bytes) → unshift (shift xs) ≡ xs
unshift-shift [] = refl
unshift-shift (x ∷ xs) =
    ap₂ (λ y ys. y ∷ ys) (let e : (x + 11) - 11 ≡ x = omega arith in e) (unshift-shift xs)

shift_line : (xs : Bytes) → All (λ c. (c == 10) ≡ false) (shift xs)
shift_line [] = tt
shift_line (x ∷ xs) = (ground arith, shift_line xs)

abbrev padding : Bytes
padding = replicate 8 61

padding_line : All (λ c. (c == 10) ≡ false) padding
padding_line = (refl, (refl, (refl, (refl, (refl, (refl, (refl, (refl, tt))))))))

get_or-append :
    (xs ys : Bytes) (n k : ℕ) → n ≡ length xs + k → get_or (xs ++ ys) n 0 ≡ get_or ys k 0
get_or-append [] ys n k e = ap (λ i. get_or ys i 0) (let same : n ≡ k = omega (arith, e) in same)
get_or-append (x ∷ xs) ys zero k e = absurd (omega (arith, e))
get_or-append (x ∷ xs) ys (suc n) k e = get_or-append xs ys n k (omega (arith, e))

abbrev pub base64 : Base64
base64 = record { encode = λ id. shift id ++ padding; decode = λ text. unshift (take 20 text) }

base64-IsBase64 : IsBase64 base64
base64-IsBase64 = record {
  encode_length = λ id e. omega (arith, length-append (shift id) padding, length-shift id, e);
  encode_padding =
      λ id e. get_or-append (shift id) padding 27 7 (omega (arith, length-shift id, e));
  encode_line =
      λ id e. All-append (λ c. (c == 10) ≡ false) (shift id) padding (shift_line id) padding_line;
  decode_encode = λ id e.
      ap unshift (take-append_left 20 (shift id) padding (length-shift id ∙ e)) ∙ unshift-shift id;
}

abbrev peer : DhtId
peer = replicate 20 9

id_from_string-id_to_string_example : id_from_string base64 (id_to_string base64 peer) ≡ some peer
id_from_string-id_to_string_example = id_from_string-id_to_string base64 base64-IsBase64 peer refl

abbrev random : ℕ → DhtKey
random n = replicate 32 7

abbrev key : DhtKey
key = replicate 32 3

abbrev client : Client
client = new_client toy key

abbrev pub window : App
window = startup client none

-- A caller comes, hangs up before the dialog opens, and the dialog is skipped.
abbrev rung : App
rung = new_connection base64 peer key key window

run_rung : AppSteps base64 toy random false window (call_stop rung)
unfolding startup set_listen new_connection
run_rung =
    later (later here (arrives window peer key key refl refl refl refl)) (moves (stops rung refl))

one_caller-IsOrderly_example : IsOrderly (call_stop rung)
one_caller-IsOrderly_example =
    one_caller-IsOrderly base64 toy random client none (call_stop rung) run_rung

window-IsReady_example : IsReady (call_stop rung)
window-IsReady_example =
    window-IsReady base64 toy random client none false (call_stop rung) run_rung

-- While a call rings, another caller comes, and then the call is stopped.
abbrev second : App
second = new_connection base64 peer key key rung

second_caller_loses_example :
    (is_current 0 (call_stop second).session ≡ false)
    × (is_live 0 (call_stop second).sessions ≡ true)
unfolding new_connection open_session startup is_live
second_caller_loses_example =
    second_caller_loses base64 toy random 0 peer key key rung (call_stop second) refl refl
      (omega arith) (later here (moves (stops second refl)))

abbrev is_blank : ℕ → Bool
is_blank c = if c == 32 then true else c == 10

abbrev named : App
named = record window {
  aliases_buffer =
      (10 ∷ []) ++ (10 ∷ ((id_to_string base64 peer ++ (32 ∷ 65 ∷ 66 ∷ [])) ++ (10 ∷ [])));
}

completion_update-IsKnown_example :
    IsKnown base64 (65 ∷ 66 ∷ []) peer (completion_update base64 is_blank named)
unfolding strip_end strip_start is_empty
completion_update-IsKnown_example =
    completion_update-IsKnown base64 is_blank (10 ∷ []) (32 ∷ 65 ∷ 66 ∷ []) (65 ∷ 66 ∷ []) peer
      named base64-IsBase64 refl (refl, (refl, (refl, tt))) refl refl refl

abbrev typed : NetworkFields
typed = record { local_port = 6000; bootstrap_host = 97 ∷ []; bootstrap_port = 5004 }

abbrev network : Network
network = record { local_port = 5004; bootstrap_host = none; bootstrap_port = 5004 }

config_apply_identity_example :
    HasIdentity toy (config_apply toy true typed window.media window network).0.0.client
    × ((config_apply toy true typed window.media window network).0.0.client.id ≡ client.id)
    × ((config_apply toy true typed window.media window network).0.0.client.privkey ≡ key)
    × ((config_apply toy true typed window.media window network).0.0.client.listen ≡ true)
unfolding key_make_public startup set_listen new_client id_from_pubkey init_table
config_apply_identity_example =
    config_apply_identity toy true typed window.media window network (refl, refl)

-- A spin button that shows the nearest value of its range.
abbrev toolkit : Toolkit
toolkit = record {
  spin_value =
      λ low high value. if ltb value low then low else if ltb high value then high else value;
}

toolkit-IsToolkit : IsToolkit toolkit
toolkit-IsToolkit = record { in_range = λ low high value h k. ground arith }

pressed_apply-config_new_example :
    pressed_apply toy true (config_new toolkit base64 network window) window network
    ≡ ((change_media toy window.media window, record network { bootstrap_host = some [] }), none)
unfolding startup default_media shown_host
pressed_apply-config_new_example =
    pressed_apply-config_new toolkit base64 toy true network window toolkit-IsToolkit (record {
      local_port = omega arith;
      bootstrap_port = omega arith;
      audio_low = omega arith;
      audio_high = omega arith;
      video_high = omega arith;
    })

load_key_stable_example :
    (length (load_key key (some [])).0 ≡ key_size)
    × (load_key (replicate 32 4) (file_after (some []) (load_key key (some [])).1)
        ≡ ((load_key key (some [])).0, none))
load_key_stable_example = load_key_stable key (replicate 32 4) (some []) refl
