-- ===== src/Search/Visit.antt =====
-- What a visit of a bucket by `dht_client_search` adds to its array.
use nanotalk.Base.{
  ℕ, ◌+◌, ◌<◌, ◌≡◌, sym, ap, ◌∙◌, inl, inr, true, false, List, [], ◌∷◌, ◌++◌, map, append_assoc,
  append-nil, ◌==◌, length, take, keep, length-append, length-take, take_all, take_short,
  take-append_full, Bool-cases, arith,
}
use nanotalk.Bucket.{Node, Bucket, node_count, dec_uint}
use nanotalk.Search.{MsgNode, Found, is_listed, msg_node, visit}

-- The listed nodes of a bucket, as they go into a message.
abbrev pub listed : ℕ → Bucket → List MsgNode
listed now b = map msg_node (keep (is_listed now) b)

-- The array holds the first sixteen of `ms`.
pub record Holds (ms : List MsgNode) (f : Found) : Type 0 where
  pub nodes : f.nodes ≡ take node_count ms
  pub count : f.count ≡ length (take node_count ms)

abbrev add_node : Node → Found → Found
add_node x f = record f { nodes = f.nodes ++ (msg_node x ∷ []); count = f.count + 1 }

abbrev drop_peer : Found → Found
drop_peer f = record f { num_peers = dec_uint f.num_peers }

module _ (ms : List MsgNode) (f : Found) (h : Holds ms f) where
  pub Holds-full : (xs : List MsgNode) → (f.count == node_count) ≡ true → Holds (ms ++ xs) f
  Holds-full xs e = record { nodes = h.nodes ∙ sym same; count = h.count ∙ ap length (sym same) }
    where
      same : take node_count (ms ++ xs) ≡ take node_count ms
      same = take-append_full node_count ms xs (ground (arith, h.count))

  Holds-add :
      (x : Node) → (f.count == node_count) ≡ false → Holds (ms ++ (msg_node x ∷ [])) (add_node x f)
  Holds-add x e = record {
    nodes = ap (λ l. l ++ (msg_node x ∷ [])) (h.nodes ∙ short) ∙ sym whole;
    count = omega (arith, h.count, ap length short, ap length whole, longer);
  }
    where
      few : length (take node_count ms) < node_count
      few = ground (arith, h.count, length-take node_count ms)

      short : take node_count ms ≡ ms
      short = take_short node_count ms few

      longer : length (ms ++ (msg_node x ∷ [])) ≡ length ms + 1
      longer = length-append ms (msg_node x ∷ [])

      whole : take node_count (ms ++ (msg_node x ∷ [])) ≡ ms ++ (msg_node x ∷ [])
      whole =
          take_all node_count (ms ++ (msg_node x ∷ []))
            (omega (arith, longer, few, ap length short))

pub visit-Holds :
    (now : ℕ) (b : Bucket) (ms : List MsgNode) (f : Found)
    → Holds ms f
    → (f.count == node_count) ≡ false
    → Holds (ms ++ listed now b) (visit now b f).1
unfolding visit keep
visit-Holds now [] ms f h e = rw append-nil h
visit-Holds now (x ∷ b) ms f h e = elim (Bool-cases (is_listed now x)) [
  | inr skip ↦
      rw (skip, visit, keep)
        (visit-Holds now b ms (drop_peer f) (record { nodes = h.nodes; count = h.count }) e)
  | inl listed_x ↦
      let h' = Holds-add ms f h x e in
      rw (listed_x, keep, ← append_assoc ms (msg_node x ∷ []) (listed now b))
        (elim (Bool-cases ((add_node x f).count == node_count)) [
          | inl full ↦
              rw (listed_x, full, visit)
                (Holds-full (ms ++ (msg_node x ∷ [])) (add_node x f) h' (listed now b) full)
          | inr more ↦
              rw (listed_x, more, visit)
                (visit-Holds now b (ms ++ (msg_node x ∷ [])) (add_node x f) h' more)
        ])
]
