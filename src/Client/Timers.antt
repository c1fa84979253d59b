-- ===== src/Client/Timers.antt =====
-- The timers of a client by their sources: those that its queries and connections hold, those that it
-- has added, and those that it has removed. A source of 0 is none.
pub mod Lookups
pub mod Handlers
pub mod Datagrams
pub mod Receive
pub mod Life
use nanotalk.Base.{
  ℕ, zero, suc, ◌+◌, ◌≡◌, ◌<◌, refl, sym, inl, inr, Option, none, some, List, [], ◌∷◌, ◌++◌, ◌==◌,
  if◌then◌else◌, Option-cases, subst, arith,
}
use nanotalk.Common.{DhtId}
use nanotalk.Client.{
  DhtQuery, DhtLookup, DhtConnection, Client, Effect, complete, send, send_from, add_timeout,
  remove_source, connect, close, new_connection, stop_source, stop_queries, cancel_results,
  cancel_result, close_socket, destroy_lookup, destroy_connection, find_lookup, find_connection,
  drop_lookup, replace_lookup, replace_connection,
}
use nanotalk.Client.Tables.{drop_lookup_found, drop_lookup_missing}
use nanotalk.Client.Tally.{Tally, IsTally, held, ended, ended-append, whereabouts}

-- Whether a source is the one that is counted.
abbrev pub same_source : ℕ → ℕ → ℕ
same_source n m = if m == n then 1 else 0

unfoldable pub in_queries : ℕ → List DhtQuery → ℕ
in_queries n [] = 0
in_queries n (q ∷ qs) = same_source n q.timeout_source + in_queries n qs

abbrev pub removed_by : ℕ → Effect → ℕ
removed_by n (remove_source m) = same_source n m
removed_by n (complete q completion) = 0
removed_by n (send a b) = 0
removed_by n (send_from a b d) = 0
removed_by n (add_timeout m) = 0
removed_by n (connect a b) = 0
removed_by n (close m) = 0
removed_by n (new_connection a b d e) = 0

abbrev pub added_by : ℕ → Effect → ℕ
added_by n (add_timeout m) = same_source n m
added_by n (complete q completion) = 0
added_by n (send a b) = 0
added_by n (send_from a b d) = 0
added_by n (remove_source m) = 0
added_by n (connect a b) = 0
added_by n (close m) = 0
added_by n (new_connection a b d e) = 0

-- The timers with a source, held and removed.
abbrev pub timers : ℕ → Tally
timers n = record {
  in_lookup = λ l. in_queries n l.queries;
  in_connection = λ x. same_source n x.timeout_source;
  out = removed_by n;
}

abbrev pub removed : ℕ → List Effect → ℕ
removed n = ended (timers n)

-- Those that are added.
abbrev pub additions : ℕ → Tally
additions n = record { in_lookup = λ l. 0; in_connection = λ x. 0; out = added_by n }

abbrev pub added : ℕ → List Effect → ℕ
added n = ended (additions n)

-- After a step a timer is held, removed or fired as often as it was held before or was added.
abbrev pub Balanced : ℕ → ℕ → Client → Client × List Effect → Type 0
Balanced n fired c p = whereabouts (timers n) p + fired ≡ held (timers n) c + added n p.1

module _ (n : ℕ) (positive : 0 < n) where
  pub stop_source-removed : (m : ℕ) → removed n (stop_source m) ≡ same_source n m
  unfolding ended stop_source
  stop_source-removed zero = ground arith
  stop_source-removed (suc m) = omega arith

  stop_queries-removed : (qs : List DhtQuery) → removed n (stop_queries qs) ≡ in_queries n qs
  unfolding ended stop_queries in_queries
  stop_queries-removed [] = refl
  stop_queries-removed (q ∷ qs) = omega (
    arith,
    ended-append (timers n) (stop_source q.timeout_source) (stop_queries qs),
    stop_source-removed q.timeout_source,
    stop_queries-removed qs,
  )

  cancel_results-removed : (rs : List ℕ) → removed n (cancel_results rs) ≡ 0
  unfolding ended cancel_results
  cancel_results-removed [] = refl
  cancel_results-removed (q ∷ rs) = omega (arith, cancel_results-removed rs)

  pub close_socket-removed : (socket : Option ℕ) → removed n (close_socket socket) ≡ 0
  unfolding ended close_socket
  close_socket-removed none = refl
  close_socket-removed (some m) = refl

  cancel_result-removed : (o : Option ℕ) → removed n (cancel_result o) ≡ 0
  unfolding ended cancel_result
  cancel_result-removed none = refl
  cancel_result-removed (some q) = refl

  pub timers-IsTally : IsTally (timers n)
  unfolding destroy_lookup destroy_connection
  timers-IsTally = record {
    lookup_out = λ l. omega (
      arith,
      ended-append (timers n) (stop_queries l.queries) (cancel_results l.results),
      stop_queries-removed l.queries,
      cancel_results-removed l.results,
    );
    connection_out = λ x. omega (
      arith,
      ended-append (timers n) (stop_source x.timeout_source)
          (close_socket x.socket ++ cancel_result x.result),
      ended-append (timers n) (close_socket x.socket) (cancel_result x.result),
      stop_source-removed x.timeout_source,
      close_socket-removed x.socket,
      cancel_result-removed x.result,
    );
  }

-- Destructors add nothing.
module _ (n : ℕ) where
  pub stop_source-added : (m : ℕ) → added n (stop_source m) ≡ 0
  unfolding ended stop_source
  stop_source-added zero = refl
  stop_source-added (suc m) = refl

  stop_queries-added : (qs : List DhtQuery) → added n (stop_queries qs) ≡ 0
  unfolding ended stop_queries
  stop_queries-added [] = refl
  stop_queries-added (q ∷ qs) = omega (
    arith,
    ended-append (additions n) (stop_source q.timeout_source) (stop_queries qs),
    stop_source-added q.timeout_source,
    stop_queries-added qs,
  )

  cancel_results-added : (rs : List ℕ) → added n (cancel_results rs) ≡ 0
  unfolding ended cancel_results
  cancel_results-added [] = refl
  cancel_results-added (q ∷ rs) = omega (arith, cancel_results-added rs)

  pub close_socket-added : (socket : Option ℕ) → added n (close_socket socket) ≡ 0
  unfolding ended close_socket
  close_socket-added none = refl
  close_socket-added (some m) = refl

  cancel_result-added : (o : Option ℕ) → added n (cancel_result o) ≡ 0
  unfolding ended cancel_result
  cancel_result-added none = refl
  cancel_result-added (some q) = refl

  pub destroy_lookup-added : (l : DhtLookup) → added n (destroy_lookup l) ≡ 0
  unfolding destroy_lookup
  destroy_lookup-added l = omega (
    arith,
    ended-append (additions n) (stop_queries l.queries) (cancel_results l.results),
    stop_queries-added l.queries,
    cancel_results-added l.results,
  )

  pub destroy_connection-added : (x : DhtConnection) → added n (destroy_connection x) ≡ 0
  unfolding destroy_connection
  destroy_connection-added x = omega (
    arith,
    ended-append (additions n) (stop_source x.timeout_source)
        (close_socket x.socket ++ cancel_result x.result),
    ended-append (additions n) (close_socket x.socket) (cancel_result x.result),
    stop_source-added x.timeout_source,
    close_socket-added x.socket,
    cancel_result-added x.result,
  )

  pub drop_lookup-added : (id : DhtId) (c : Client) → added n (drop_lookup id c).1 ≡ 0
  drop_lookup-added id c = elim (Option-cases (find_lookup id c.lookup_table)) [
    | inl e ↦ subst (λ p. added n p.1 ≡ 0) (sym (drop_lookup_missing id c e)) (unfold ended in refl)
    | inr (l, e) ↦
        subst (λ p. added n p.1 ≡ 0) (sym (drop_lookup_found id l c e)) (destroy_lookup-added l)
  ]

  pub replace_lookup-added : (l : DhtLookup) (c : Client) → added n (replace_lookup l c).1 ≡ 0
  unfolding replace_lookup
  replace_lookup-added l c = elim (Option-cases (find_lookup l.id c.lookup_table)) [
    | inl e ↦ rw (replace_lookup, e) (unfold ended in refl)
    | inr (k, e) ↦ rw (replace_lookup, e) (destroy_lookup-added k)
  ]

  pub replace_connection-added :
      (x : DhtConnection) (c : Client) → added n (replace_connection x c).1 ≡ 0
  unfolding replace_connection
  replace_connection-added x c = elim (Option-cases (find_connection x.nonce c.connection_table)) [
    | inl e ↦ rw (replace_connection, e) (unfold ended in refl)
    | inr (y, e) ↦ rw (replace_connection, e) (destroy_connection-added y)
  ]
