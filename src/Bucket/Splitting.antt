-- ===== src/Bucket/Splitting.antt =====
-- The bucket split of `dht_client_update`: what one round takes out, what it keeps and what it
-- loses, and why the loop ends.
use nanotalk.Base.{
  ℕ, zero, suc, ◌+◌, ◌-◌, ◌≤◌, ◌≡◌, ◌≢◌, refl, ap, ◌∙◌, Bool, true, false, not, Option, none, some,
  List, [], ◌∷◌, ◌==◌, inl, inr, length, drop, keep, length-drop, length-keep, length-keep-not,
  Bool-cases, arith,
}
use nanotalk.Common.{DhtId}
use nanotalk.Bucket.{
  Node, Bucket, Split, node_count, moves, concat, redistribute, split_step, split_loop,
}

-- What hangs on `first` after links have been taken out one by one.
chain : List Node → Option Node → List Node → List Node
chain first last [] = first
chain first last (node ∷ nodes) = chain (concat last node) (some node) nodes

chain_from :
    (l : Node) (nodes : List Node) (m : Node) (first : List Node)
    → chain first (some l) (m ∷ nodes) ≡ drop (length nodes) (l ∷ m ∷ nodes)
unfolding chain
chain_from l [] m first = refl
chain_from l (n ∷ nodes) m first = chain_from m nodes n (l ∷ m ∷ [])

chain_lem : (nodes : List Node) → chain [] none nodes ≡ drop (length nodes - 2) nodes
unfolding chain
chain_lem [] = refl
chain_lem (m ∷ []) = refl
chain_lem (m ∷ n ∷ nodes) =
    chain_from m nodes n (m ∷ [])
    ∙ ap (λ k. drop k (m ∷ n ∷ nodes))
        (let e : length nodes ≡ suc (suc (length nodes)) - 2 = omega arith in e)

abbrev pub stays : DhtId → ℕ → Node → Bool
stays own nbits node = not (moves own nbits node)

redistribute_from :
    (own : DhtId) (nbits : ℕ) (nodes first : List Node) (last : Option Node) (count : ℕ)
    → redistribute own nbits nodes first last count ≡ (
      keep (stays own nbits) nodes,
      chain first last (keep (moves own nbits) nodes),
      count + length (keep (moves own nbits) nodes),
    )
unfolding redistribute chain keep
redistribute_from own nbits [] first last count = ground arith
redistribute_from own nbits (n ∷ nodes) first last count = ground (
  arith,
  redistribute_from own nbits nodes (concat last n) (some n) (count + 1),
  redistribute_from own nbits nodes first last count,
)

-- One round of a split keeps the nodes that do not move, in order, and counts all that do; but only
-- the last two of these are reached from the new bucket.
pub redistribute_lem :
    (own : DhtId) (nbits : ℕ) (nodes : Bucket)
    → let moved = keep (moves own nbits) nodes in
      redistribute own nbits nodes [] none 0
      ≡ (keep (stays own nbits) nodes, drop (length moved - 2) moved, length moved)
redistribute_lem own nbits nodes =
    redistribute_from own nbits nodes [] none 0
    ∙ ground (arith, chain_lem (keep (moves own nbits) nodes))

-- Of `count` nodes that a round of a split moves, `count - 2` are reached from no bucket after it.
pub redistribute_loses :
    (own : DhtId) (nbits : ℕ) (nodes : Bucket)
    → let (kept, first, count) = redistribute own nbits nodes [] none 0 in
      length kept + length first + (count - 2) ≡ length nodes
redistribute_loses own nbits nodes =
    rw (redistribute_lem own nbits nodes)
      (omega (arith, length-keep-not (moves own nbits) nodes, length-drop (length moved - 2) moved))
  where
    moved : List Node
    moved = keep (moves own nbits) nodes

split_step_small :
    (own : DhtId) (s : Split)
    → (length (split_step own s).bucket ≤ 2) × ((split_step own s).count ≤ length s.bucket)
unfolding split_step
split_step_small own s =
    rw (redistribute_lem own s.nbits s.bucket, split_step)
      (
        omega (arith, length-drop (length moved - 2) moved),
        length-keep (moves own s.nbits) s.bucket,
      )
  where
    moved : List Node
    moved = keep (moves own s.nbits) s.bucket

split_loop_stop :
    (fuel : ℕ) (own : DhtId) (s : Split)
    → (s.count == node_count) ≡ false
    → split_loop fuel own s ≡ s
unfolding split_loop
split_loop_stop zero own s h = refl
split_loop_stop (suc fuel) own s h = rw (h, split_loop)

split_loop_more :
    (fuel : ℕ) (own : DhtId) (s : Split)
    → (s.count == node_count) ≡ true
    → split_loop (suc fuel) own s ≡ split_loop fuel own (split_step own s)
unfolding split_loop
split_loop_more fuel own s h = rw (h, split_loop)

split_step_count : (own : DhtId) (s : Split) → (split_step own (split_step own s)).count ≤ 2
split_step_count own s =
    omega (arith, (split_step_small own s).0, (split_step_small own (split_step own s)).1)

-- Whatever the state, two rounds of fuel or more make the loop of a split end by its own test.
pub split_loop_ends :
    (own : DhtId) (s : Split) (fuel : ℕ) → (split_loop (suc (suc fuel)) own s).count ≢ node_count
split_loop_ends own s fuel = elim (Bool-cases (s.count == node_count)) [
  | inr e ↦ rw (split_loop_stop (suc (suc fuel)) own s e) (ground arith)
  | inl e ↦
      let t = split_step own s in
      rw (split_loop_more (suc fuel) own s e) (elim (Bool-cases (t.count == node_count)) [
        | inr f ↦ rw (split_loop_stop (suc fuel) own t f) (ground arith)
        | inl f ↦
            rw
              (
                split_loop_more fuel own t f,
                split_loop_stop fuel own (split_step own t)
                    (ground (arith, split_step_count own s)),
              )
              (ground (arith, split_step_count own s))
      ])
]
