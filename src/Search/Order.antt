-- ===== src/Search/Order.antt =====
-- The nodes that `dht_client_search` names, and the order of its walk.
use nanotalk.Base.{
  ℕ, ◌+◌, ◌≤◌, ◌≡◌, refl, sym, ap, subst, ◌∙◌, inl, inr, Bool, true, false, List, [], ◌∷◌, ◌++◌,
  append_assoc, append-nil, ◌==◌, if◌then◌else◌, length, take, length-take, Bool-cases, arith,
}
use nanotalk.Common.{DhtId, id_xor, bit}
use nanotalk.Bucket.{Bucket, Table, node_count}
use nanotalk.Search.{MsgNode, Found, visit, visit_if, walk, search_nodes}
use nanotalk.Search.Visit.{listed, Holds, Holds-full, visit-Holds}

-- The buckets in the order of the walk: on the way out those whose bit is set, then the others.
unfoldable pub order : DhtId → ℕ → List Bucket → List Bucket
order metric nbits [] = []
order metric nbits (b ∷ rest) =
    let others = order metric (nbits + 1) rest in
    if bit metric nbits then b ∷ others else others ++ (b ∷ [])

unfoldable pub candidates : ℕ → List Bucket → List MsgNode
candidates now [] = []
candidates now (b ∷ bs) = listed now b ++ candidates now bs

candidates-append :
    (now : ℕ) (bs : List Bucket) (b : Bucket)
    → candidates now (bs ++ (b ∷ [])) ≡ candidates now bs ++ listed now b
unfolding candidates
candidates-append now [] b = append-nil (listed now b)
candidates-append now (c ∷ bs) b =
    ap (λ l. listed now c ++ l) (candidates-append now bs b)
    ∙ sym (append_assoc (listed now c) (candidates now bs) (listed now b))

visit_if-true :
    {c : Bool} (now : ℕ) (b : Bucket) (f : Found) → c ≡ true → visit_if c now b f ≡ visit now b f
unfolding visit_if
visit_if-true now b f e = rw e

visit_if-false :
    {c : Bool} (now : ℕ) (b : Bucket) (f : Found) → c ≡ false → visit_if c now b f ≡ (b, f)
unfolding visit_if
visit_if-false now b f e = rw e

module _ (metric : DhtId) (now n : ℕ) (b : Bucket) (rest : List Bucket) (f : Found) where
  abbrev out : Bucket × Found
  out = visit_if (bit metric n) now b f

  abbrev back : Found
  back = (walk metric now (n + 1) rest out.1).1

  walk_full_out : (out.1.count == node_count) ≡ true → (walk metric now n (b ∷ rest) f).1 ≡ out.1
  unfolding walk
  walk_full_out e = rw (e, walk)

  walk_full_back :
      (out.1.count == node_count) ≡ false
      → (back.count == node_count) ≡ true
      → (walk metric now n (b ∷ rest) f).1 ≡ back
  unfolding walk
  walk_full_back e d = rw (e, d, walk)

  walk-back :
      (out.1.count == node_count) ≡ false
      → (back.count == node_count) ≡ false
      → (walk metric now n (b ∷ rest) f).1
        ≡ (visit_if (if bit metric n then false else true) now out.0 back).1
  unfolding walk
  walk-back e d = rw (e, d, walk)

-- A bucket whose bit is set is visited on the way out only, any other on the way back only.
module _ (metric : DhtId) (now n : ℕ) (b : Bucket) (rest : List Bucket) (ms : List MsgNode)
    (f : Found) where
  abbrev after : Found
  after = (walk metric now n (b ∷ rest) f).1

  abbrev others : List MsgNode
  others = candidates now (order metric (n + 1) rest)

  abbrev Onward : List MsgNode → Found → Type 0
  Onward ns g =
      Holds ns g
      → (g.count == node_count) ≡ false
      → Holds (ns ++ others) (walk metric now (n + 1) rest g).1

  walk_set :
      bit metric n ≡ true
      → Holds (ms ++ listed now b) (visit now b f).1
      → Onward (ms ++ listed now b) (visit now b f).1
      → Holds (ms ++ (listed now b ++ others)) after
  walk_set set h onward =
      rw (← append_assoc ms (listed now b) others) (elim (Bool-cases (out1.count == node_count)) [
        | inl full ↦
            rw (walk_full_out metric now n b rest f full)
              (Holds-full (ms ++ listed now b) out1 h1 others full)
        | inr more ↦ elim (Bool-cases ((walk metric now (n + 1) rest out1).1.count == node_count)) [
          | inl full ↦ rw (walk_full_back metric now n b rest f more full) (onward1 h1 more)
          | inr more2 ↦
              rw
                (
                  walk-back metric now n b rest f more more2,
                  visit_if-false now (out metric now n b rest f).0 (back metric now n b rest f)
                      (ap (λ c. if c then false else true) set),
                )
                (onward1 h1 more)
        ]
      ])
    where
      out1 : Found
      out1 = (out metric now n b rest f).1

      same : (visit now b f).1 ≡ out1
      same = ap (λ p. p.1) (sym (visit_if-true now b f set))

      h1 : Holds (ms ++ listed now b) out1
      h1 = subst (Holds (ms ++ listed now b)) same h

      onward1 : Onward (ms ++ listed now b) out1
      onward1 = subst (Onward (ms ++ listed now b)) same onward

  walk_unset :
      bit metric n ≡ false
      → Holds ms f
      → (f.count == node_count) ≡ false
      → Onward ms f
      → Holds (ms ++ (others ++ listed now b)) after
  walk_unset unset h e onward =
      rw (← append_assoc ms others (listed now b)) (elim (Bool-cases (back1.count == node_count)) [
        | inl full ↦
            rw (walk_full_back metric now n b rest f more full)
              (Holds-full (ms ++ others) back1 h1 (listed now b) full)
        | inr more2 ↦
            rw
              (
                walk-back metric now n b rest f more more2,
                visit_if-true now (out metric now n b rest f).0 back1
                    (ap (λ c. if c then false else true) unset),
                ap (λ p. p.0) same,
              )
              (visit-Holds now b (ms ++ others) back1 h1 more2)
      ])
    where
      same : out metric now n b rest f ≡ (b, f)
      same = visit_if-false now b f unset

      back1 : Found
      back1 = back metric now n b rest f

      more : ((out metric now n b rest f).1.count == node_count) ≡ false
      more = ap (λ p. p.1.count == node_count) same ∙ e

      h1 : Holds (ms ++ others) back1
      h1 =
          subst (λ g. Holds (ms ++ others) (walk metric now (n + 1) rest g).1)
            (ap (λ p. p.1) (sym same)) (onward h e)

walk-Holds :
    (metric : DhtId) (now n : ℕ) (bs : List Bucket) (ms : List MsgNode) (f : Found)
    → Holds ms f
    → (f.count == node_count) ≡ false
    → Holds (ms ++ candidates now (order metric n bs)) (walk metric now n bs f).1
unfolding walk order candidates
walk-Holds metric now n [] ms f h e = rw append-nil h
walk-Holds metric now n (b ∷ rest) ms f h e = elim (Bool-cases (bit metric n)) [
  | inl set ↦
      rw (set, order)
        (walk_set metric now n b rest ms f set (visit-Holds now b ms f h e)
          (walk-Holds metric now (n + 1) rest (ms ++ listed now b) (visit now b f).1))
  | inr unset ↦
      rw (unset, order, candidates-append now (order metric (n + 1) rest) b)
        (walk_unset metric now n b rest ms f unset h e (walk-Holds metric now (n + 1) rest ms f))
]

-- `dht_client_search` puts into its array the first `DHT_NODE_COUNT` of the nodes that are alive or
-- were seen within the last hour, taken bucket by bucket in the order of its walk.
pub search_nodes_lem :
    (now : ℕ) (id : DhtId) (t : Table)
    → (search_nodes now id t).1
      ≡ take node_count (candidates now (order (id_xor t.id id) 0 t.buckets))
unfolding search_nodes
search_nodes_lem now id t =
    (walk-Holds (id_xor t.id id) now 0 t.buckets []
      (record { nodes = []; count = 0; num_peers = t.num_peers })
      (record { nodes = refl; count = refl }) refl).nodes

-- `dht_client_search` never puts more than 16 nodes into its array.
pub search_nodes-length :
    (now : ℕ) (id : DhtId) (t : Table) → length (search_nodes now id t).1 ≤ node_count
search_nodes-length now id t =
    rw (search_nodes_lem now id t)
      (omega (arith, length-take node_count (candidates now (order (id_xor t.id id) 0 t.buckets))))
