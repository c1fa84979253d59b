-- ===== src/Client/Connection/Timeout.antt =====
-- What `dht_connection_timeout_cb` does with a connection in the table.
use nanotalk.Base.{◌≡◌, ap, subst, ◌∙◌, none, some, List, [], ◌++◌, append-nil}
use nanotalk.Common.{DhtKey}
use nanotalk.Client.{
  DhtConnection, Client, Effect, stop_source, close_socket, cancel_result, destroy_connection,
  find_connection, remove_connection, store_connection, drop_connection,
}
use nanotalk.Client.Connection.{connection_timeout, time_out_result}
use nanotalk.Client.Tables.{
  find_connection-nonce, find-store_connection, remove-store_connection, drop_connection_found,
}

abbrev ended : DhtConnection → DhtConnection
ended x = record x { result = none; timeout_source = 0 }

timeout_found :
    (nonce : DhtKey) (x : DhtConnection) (c : Client)
    → find_connection nonce c.connection_table ≡ some x
    → let r =
        drop_connection nonce
          (record c { connection_table = store_connection (ended x) c.connection_table }) in
      connection_timeout nonce c ≡ (r.0, time_out_result x.result ++ r.1)
unfolding connection_timeout
timeout_found nonce x c e = rw (connection_timeout, e)

-- When the timer of a connection runs out, the connection leaves the table, its call ends with a
-- time-out and with nothing else, its socket is closed, and the timer that has run out is not
-- removed again.
pub connection_timeout_lem :
    (nonce : DhtKey) (x : DhtConnection) (c : Client)
    → find_connection nonce c.connection_table ≡ some x
    → connection_timeout nonce c ≡ (
      record c { connection_table = remove_connection nonce c.connection_table },
      time_out_result x.result ++ close_socket x.socket,
    )
unfolding destroy_connection stop_source cancel_result
connection_timeout_lem nonce x c e =
    timeout_found nonce x c e
    ∙ ap (λ p. (p.0, time_out_result x.result ++ p.1))
        (drop_connection_found nonce (ended x) stored found)
    ∙ ap
        (λ (table : List DhtConnection). (
          record c { connection_table = table },
          time_out_result x.result ++ (close_socket x.socket ++ []),
        ))
        removed
    ∙ ap
        (λ (es : List Effect). (
          record c { connection_table = remove_connection nonce c.connection_table },
          time_out_result x.result ++ es,
        ))
        (append-nil (close_socket x.socket))
  where
    stored : Client
    stored = record c { connection_table = store_connection (ended x) c.connection_table }

    same : x.nonce ≡ nonce
    same = find_connection-nonce nonce x c.connection_table e

    found : find_connection nonce stored.connection_table ≡ some (ended x)
    found =
        subst
          (λ n. find_connection n (store_connection (ended x) c.connection_table) ≡ some (ended x))
          same (find-store_connection (ended x) c.connection_table)

    removed :
        remove_connection nonce stored.connection_table ≡ remove_connection nonce c.connection_table
    removed =
        subst
          (λ n.
            remove_connection n (store_connection (ended x) c.connection_table)
            ≡ remove_connection n c.connection_table)
          same (remove-store_connection (ended x) c.connection_table)
