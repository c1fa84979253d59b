-- ===== src/Client/Results.antt =====
-- The asynchronous calls of a client by their results: those that it holds, in lookups and in
-- connections, and those that it has ended.
pub mod Lookups
pub mod Handlers
pub mod Handshake
pub mod Datagrams
pub mod Calls
use nanotalk.Base.{
  ℕ, zero, suc, ◌+◌, ◌≡◌, refl, Option, none, some, List, [], ◌∷◌, ◌++◌, ◌==◌, if◌then◌else◌, count,
  arith,
}
use nanotalk.Client.{
  DhtQuery, DhtLookup, DhtConnection, Effect, complete, send, send_from, add_timeout, remove_source,
  connect, close, new_connection, stop_source, stop_queries, cancel_results, cancel_result,
  close_socket, destroy_lookup, destroy_connection,
}
use nanotalk.Client.Tally.{Tally, IsTally, ended, ended-append}

-- How often a call is among those that are held.
abbrev pub in_option : ℕ → Option ℕ → ℕ
in_option r none = 0
in_option r (some q) = if q == r then 1 else 0

-- How often a call is ended.
abbrev pub in_effect : ℕ → Effect → ℕ
in_effect r (complete q completion) = if q == r then 1 else 0
in_effect r (send a b) = 0
in_effect r (send_from a b d) = 0
in_effect r (add_timeout n) = 0
in_effect r (remove_source n) = 0
in_effect r (connect a b) = 0
in_effect r (close n) = 0
in_effect r (new_connection a b d e) = 0

-- The calls with a number.
abbrev pub calls : ℕ → Tally
calls r = record {
  in_lookup = λ l. count r l.results;
  in_connection = λ x. in_option r x.result;
  out = in_effect r;
}

module _ (r : ℕ) where
  pub stop_source-ended : (n : ℕ) → ended (calls r) (stop_source n) ≡ 0
  unfolding ended stop_source
  stop_source-ended zero = refl
  stop_source-ended (suc n) = refl

  stop_queries-ended : (qs : List DhtQuery) → ended (calls r) (stop_queries qs) ≡ 0
  unfolding ended stop_queries
  stop_queries-ended [] = refl
  stop_queries-ended (q ∷ qs) = omega (
    arith,
    ended-append (calls r) (stop_source q.timeout_source) (stop_queries qs),
    stop_source-ended q.timeout_source,
    stop_queries-ended qs,
  )

  cancel_results-ended : (rs : List ℕ) → ended (calls r) (cancel_results rs) ≡ count r rs
  unfolding ended cancel_results count
  cancel_results-ended [] = refl
  cancel_results-ended (q ∷ rs) = omega (arith, cancel_results-ended rs)

  pub destroy_lookup-ended :
      (l : DhtLookup) → ended (calls r) (destroy_lookup l) ≡ count r l.results
  unfolding destroy_lookup
  destroy_lookup-ended l = omega (
    arith,
    ended-append (calls r) (stop_queries l.queries) (cancel_results l.results),
    stop_queries-ended l.queries,
    cancel_results-ended l.results,
  )

  pub close_socket-ended : (socket : Option ℕ) → ended (calls r) (close_socket socket) ≡ 0
  unfolding ended close_socket
  close_socket-ended none = refl
  close_socket-ended (some n) = refl

  cancel_result-ended : (o : Option ℕ) → ended (calls r) (cancel_result o) ≡ in_option r o
  unfolding ended cancel_result
  cancel_result-ended none = refl
  cancel_result-ended (some q) = omega arith

  pub destroy_connection-ended :
      (x : DhtConnection) → ended (calls r) (destroy_connection x) ≡ in_option r x.result
  unfolding destroy_connection
  destroy_connection-ended x = omega (
    arith,
    ended-append (calls r) (stop_source x.timeout_source)
        (close_socket x.socket ++ cancel_result x.result),
    ended-append (calls r) (close_socket x.socket) (cancel_result x.result),
    stop_source-ended x.timeout_source,
    close_socket-ended x.socket,
    cancel_result-ended x.result,
  )

  pub calls-IsTally : IsTally (calls r)
  calls-IsTally = record {
    lookup_out = destroy_lookup-ended;
    connection_out = destroy_connection-ended;
  }
