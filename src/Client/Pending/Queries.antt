-- ===== src/Client/Pending/Queries.antt =====
-- How many queries of a lookup wait, when queries are added, answered or given up.
use nanotalk.Base.{
  ℕ, ◌+◌, ◌≡◌, refl, ap, ◌∙◌, subst, inl, inr, true, not, ◌&&◌, Option, some, List, [], ◌∷◌, ◌==◌,
  if◌then◌else◌, bytes_eq_sound, Option-cases, if_both, arith,
}
use nanotalk.Common.{DhtId, DhtAddress, address_equal, id_equal, id_xor}
use nanotalk.Search.{MsgNode}
use nanotalk.Client.{DhtQuery, DhtLookup}
use nanotalk.Client.Tables.{chosen}
use nanotalk.Client.Lookup.{
  find_query, insert_query, new_query, add_query, scan_nodes, modify_query,
}
use nanotalk.Client.Receive.{remove_query, store_query, settle_query, answer_query}
use nanotalk.Client.Sources.Loop.{waiting}
use nanotalk.Client.Pending.{IsCounted, IsPending}

abbrev pub one : DhtQuery → ℕ
one q = if q.timeout_source == 0 then 0 else 1

waiting-insert_query :
    (q : DhtQuery) (qs : List DhtQuery) → waiting (insert_query q qs) ≡ one q + waiting qs
unfolding waiting insert_query
waiting-insert_query q [] = refl
waiting-insert_query q (r ∷ rs) = ground (arith, waiting-insert_query q rs)

pub find_query-addr :
    (addr : DhtAddress) (q : DhtQuery) (qs : List DhtQuery)
    → find_query addr qs ≡ some q
    → q.addr ≡ addr
unfolding find_query
find_query-addr addr q [] e = absurd (ground arith)
find_query-addr addr q (r ∷ rs) e =
    elim (chosen (address_equal r.addr addr) r q (find_query addr rs) e) [
      | inl (same, eq) ↦
          subst (λ (x : DhtQuery). x.addr ≡ addr) eq (bytes_eq_sound r.addr addr same)
      | inr later ↦ find_query-addr addr q rs later
    ]

waiting-remove_query :
    (addr : DhtAddress) (q : DhtQuery) (qs : List DhtQuery)
    → find_query addr qs ≡ some q
    → one q + waiting (remove_query addr qs) ≡ waiting qs
unfolding waiting find_query remove_query
waiting-remove_query addr q [] e = absurd (ground arith)
waiting-remove_query addr q (r ∷ rs) e = ground (arith, waiting-remove_query addr q rs)

-- The query with an address is changed to one that does not wait.
pub waiting-modify_query :
    (f : DhtQuery → DhtQuery) (addr : DhtAddress) (q : DhtQuery) (qs : List DhtQuery)
    → ((x : DhtQuery) → one (f x) ≡ 0)
    → find_query addr qs ≡ some q
    → one q + waiting (modify_query f addr qs) ≡ waiting qs
unfolding waiting find_query modify_query
waiting-modify_query f addr q [] done e = absurd (ground arith)
waiting-modify_query f addr q (r ∷ rs) done e =
    ground (arith, done r, waiting-modify_query f addr q rs done)

waiting-store_query :
    (q' q : DhtQuery) (qs : List DhtQuery)
    → one q' ≡ 0
    → find_query q'.addr qs ≡ some q
    → one q + waiting (store_query q' qs) ≡ waiting qs
unfolding waiting find_query store_query
waiting-store_query q' q [] done e = absurd (ground arith)
waiting-store_query q' q (r ∷ rs) done e = ground (arith, done, waiting-store_query q' q rs done)

pub scan_nodes-IsCounted :
    (own : DhtId) (nodes : List MsgNode) (l : DhtLookup)
    → IsCounted l
    → IsCounted (scan_nodes own nodes l).0
unfolding scan_nodes
scan_nodes-IsCounted own [] l h = h
scan_nodes-IsCounted own (node ∷ nodes) l h =
    let l' = if id_equal node.id own then l else add_query node l in
    let rest =
      scan_nodes-IsCounted own nodes l'
        (if_both IsCounted (id_equal node.id own) _ _ h (added node)) in
    if_both (λ (p : DhtLookup × Option MsgNode). IsCounted p.0)
      (not (id_equal node.id own) && id_equal node.id l.id) _ _ h rest
  where
    added : (n : MsgNode) → IsCounted (add_query n l)
    added n = elim (Option-cases (find_query n.addr l.queries)) [
      | inl e ↦
          unfold add_query new_query in
          rw (add_query, e)
            (omega (arith, h.0, waiting-insert_query (new_query l.id n) l.queries), h.1)
      | inr (q, e) ↦ unfold add_query in rw (add_query, e) h
    ]

-- An answer takes its query from those that wait.
pub answer_query-IsCounted :
    (srcid : DhtId) (addr : DhtAddress) (q : DhtQuery) (l : DhtLookup)
    → IsPending l
    → find_query addr l.queries ≡ some q
    → IsCounted (answer_query srcid q l)
answer_query-IsCounted srcid addr q l h e =
    let same = find_query-addr addr q l.queries e in
    let found : find_query q.addr l.queries ≡ some q = ap (λ a. find_query a l.queries) same ∙ e in
    let answered : DhtQuery = record q {
      is_finished = true;
      is_alive = true;
      timeout_source = 0;
    } in
    let metric = id_xor srcid l.id in
    let settled : one q + waiting (settle_query metric answered l.queries) ≡ waiting l.queries =
      unfold settle_query in
      if_both (λ qs. one q + waiting qs ≡ waiting l.queries) (id_equal metric q.metric) _ _
        (waiting-store_query answered q l.queries refl found)
        (omega (
          arith,
          waiting-insert_query (record answered { metric = metric })
              (remove_query q.addr l.queries),
          waiting-remove_query q.addr q l.queries found,
        )) in
    unfold answer_query in ground (arith, settled, h)
