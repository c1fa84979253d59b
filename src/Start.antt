-- ===== src/Start.antt =====
-- `startup` of src/main.c: the configuration and the key of a client as they are read, and its first
-- requests. The files and the resolver answer as they do; errors that are only printed are left out.
use nanotalk.Base.{
  ℕ, ◌≡◌, Bool, true, false, not, ◌&&◌, Option, none, some, List, [], ◌==◌, if◌then◌else◌, inl, inr,
  Bool-cases, length, arith,
}
use nanotalk.Common.{Bytes, DhtKey, SocketAddress, Sodium, key_size}
use nanotalk.Client.{Client, Effect, new_client}
use nanotalk.Client.Lookup.{bootstrap}
use nanotalk.App.Aliases.{is_empty}
use nanotalk.App.Config.{Network, to_uint16}

-- `DEFAULT_PORT`.
abbrev default_port : ℕ
default_port = 5004

-- The configuration, and whether it is written because there was none.
unfoldable pub load_config : Option Network → Network × Bool
load_config (some n) = (n, false)
load_config none = (
  record { local_port = default_port; bootstrap_host = some []; bootstrap_port = default_port },
  true,
)

-- The host and the port that are asked for, if there are both.
unfoldable pub bootstrap_name : Network → Option (Bytes × ℕ)
bootstrap_name n = elim n.bootstrap_host [
  | none ↦ none
  | some host ↦
      let port = to_uint16 n.bootstrap_port in
      if not (is_empty host) && not (port == 0) then some (host, port) else none
]

-- The key, from what the file holds, and what is written to the file.
unfoldable pub load_key : Bytes → Option Bytes → DhtKey × Option Bytes
load_key random none = (random, some random)
load_key random (some bytes) =
    if length bytes == key_size then (bytes, none) else (random, some random)

-- What the file holds then.
abbrev pub file_after : Option Bytes → Option Bytes → Option Bytes
file_after file none = file
file_after file (some bytes) = some bytes

-- `startup`: the client, the port that it is bound to, what it sends, and what is written to the file
-- of the key. `resolve` is the resolver's first answer with the port.
unfoldable pub startup :
    Sodium
    → (ℕ → DhtKey)
    → (Bytes → ℕ → Option SocketAddress)
    → Option Network
    → Bytes
    → Option Bytes
    → (Client × List Effect) × ℕ × Option Bytes
startup s randombytes resolve config random file =
    let (n, is_new) = load_config config in
    let (key, written) = load_key random file in
    let client = new_client s key in
    let request : Option SocketAddress = elim (bootstrap_name n) [
      | none ↦ none
      | some (host, port) ↦ resolve host port
    ] in
    (
      elim request [ none ↦ (client, []) | some address ↦ bootstrap randombytes address client ],
      to_uint16 n.local_port,
      written,
    )

-- Whatever the file of the key held, a key of 32 bytes is used, the next start uses the same key, and it
-- writes nothing, where the random bytes are 32.
pub load_key_stable :
    (random random' : Bytes) (file : Option Bytes)
    → length random ≡ key_size
    → let (key, written) = load_key random file in
      (length key ≡ key_size) × (load_key random' (file_after file written) ≡ (key, none))
unfolding load_key
load_key_stable random random' none e = (e, rw e)
load_key_stable random random' (some bytes) e = elim (Bool-cases (length bytes == key_size)) [
  | inl same ↦ (ground (arith, same), rw (load_key, same, same))
  | inr other ↦ (ground (arith, other, e), rw (other, e))
]
