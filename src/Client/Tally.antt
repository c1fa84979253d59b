-- ===== src/Client/Tally.antt =====
-- What a client holds in its lookups and connections, counted by any measure, and what its effects
-- take out.
use nanotalk.Base.{
  ℕ, ◌+◌, ◌≡◌, refl, sym, inl, inr, none, some, List, [], ◌∷◌, ◌++◌, if◌then◌else◌, bytes_eq,
  Option-cases, subst, arith,
}
use nanotalk.Common.{DhtId, DhtKey}
use nanotalk.Client.{
  DhtLookup, DhtConnection, Client, Effect, find_lookup, store_lookup, remove_lookup,
  find_connection, store_connection, remove_connection, drop_lookup, replace_connection,
  replace_lookup, destroy_lookup, destroy_connection,
}
use nanotalk.Client.Tables.{drop_lookup_found, drop_lookup_missing}

-- A measure: what a lookup holds, what a connection holds, and what an effect takes out.
pub record Tally : Type 0 where
  pub in_lookup : DhtLookup → ℕ
  pub in_connection : DhtConnection → ℕ
  pub out : Effect → ℕ

unfoldable pub in_lookups : Tally → List DhtLookup → ℕ
in_lookups w [] = 0
in_lookups w (l ∷ ls) = w.in_lookup l + in_lookups w ls

unfoldable pub in_connections : Tally → List DhtConnection → ℕ
in_connections w [] = 0
in_connections w (x ∷ xs) = w.in_connection x + in_connections w xs

abbrev pub held : Tally → Client → ℕ
held w c = in_lookups w c.lookup_table + in_connections w c.connection_table

unfoldable pub ended : Tally → List Effect → ℕ
ended w [] = 0
ended w (e ∷ es) = w.out e + ended w es

pub ended-append : (w : Tally) (es fs : List Effect) → ended w (es ++ fs) ≡ ended w es + ended w fs
unfolding ended
ended-append w [] fs = omega arith
ended-append w (e ∷ es) fs = omega (arith, ended-append w es fs)

-- The destructors take out what is held.
pub record IsTally (w : Tally) : Type 0 where
  pub lookup_out : (l : DhtLookup) → ended w (destroy_lookup l) ≡ w.in_lookup l
  pub connection_out : (x : DhtConnection) → ended w (destroy_connection x) ≡ w.in_connection x

-- Where it is after a step: held still, or ended by it.
abbrev pub whereabouts : Tally → Client × List Effect → ℕ
whereabouts w p = held w p.0 + ended w p.1

-- What the lookup holds that stands under an identifier, and of the connection under a nonce.
unfoldable pub at_lookup : Tally → DhtId → List DhtLookup → ℕ
at_lookup w id [] = 0
at_lookup w id (l ∷ ls) = if bytes_eq l.id id then w.in_lookup l else at_lookup w id ls

unfoldable pub at_connection : Tally → DhtKey → List DhtConnection → ℕ
at_connection w nonce [] = 0
at_connection w nonce (x ∷ xs) =
    if bytes_eq x.nonce nonce then w.in_connection x else at_connection w nonce xs

module _ (w : Tally) where
  pub at_lookup_missing :
      (id : DhtId) (ls : List DhtLookup) → find_lookup id ls ≡ none → at_lookup w id ls ≡ 0
  unfolding at_lookup find_lookup
  at_lookup_missing id [] e = refl
  at_lookup_missing id (k ∷ ls) e = ground (arith, at_lookup_missing id ls)

  pub at_lookup_found :
      (id : DhtId) (l : DhtLookup) (ls : List DhtLookup)
      → find_lookup id ls ≡ some l
      → at_lookup w id ls ≡ w.in_lookup l
  unfolding at_lookup find_lookup
  at_lookup_found id l [] e = absurd (ground arith)
  at_lookup_found id l (k ∷ ls) e = ground (arith, at_lookup_found id l ls)

  pub store_lookup-count :
      (l : DhtLookup) (ls : List DhtLookup)
      → in_lookups w (store_lookup l ls) + at_lookup w l.id ls ≡ in_lookups w ls + w.in_lookup l
  unfolding in_lookups store_lookup at_lookup
  store_lookup-count l [] = omega arith
  store_lookup-count l (k ∷ ls) = ground (arith, store_lookup-count l ls)

  pub remove_lookup-count :
      (id : DhtId) (ls : List DhtLookup)
      → in_lookups w (remove_lookup id ls) + at_lookup w id ls ≡ in_lookups w ls
  unfolding in_lookups remove_lookup at_lookup
  remove_lookup-count id [] = refl
  remove_lookup-count id (k ∷ ls) = ground (arith, remove_lookup-count id ls)

  pub at_connection_missing :
      (nonce : DhtKey) (xs : List DhtConnection)
      → find_connection nonce xs ≡ none
      → at_connection w nonce xs ≡ 0
  unfolding at_connection find_connection
  at_connection_missing nonce [] e = refl
  at_connection_missing nonce (k ∷ xs) e = ground (arith, at_connection_missing nonce xs)

  pub at_connection_found :
      (nonce : DhtKey) (x : DhtConnection) (xs : List DhtConnection)
      → find_connection nonce xs ≡ some x
      → at_connection w nonce xs ≡ w.in_connection x
  unfolding at_connection find_connection
  at_connection_found nonce x [] e = absurd (ground arith)
  at_connection_found nonce x (k ∷ xs) e = ground (arith, at_connection_found nonce x xs)

  pub store_connection-count :
      (x : DhtConnection) (xs : List DhtConnection)
      → in_connections w (store_connection x xs) + at_connection w x.nonce xs
        ≡ in_connections w xs + w.in_connection x
  unfolding in_connections store_connection at_connection
  store_connection-count x [] = omega arith
  store_connection-count x (k ∷ xs) = ground (arith, store_connection-count x xs)

  pub remove_connection-count :
      (nonce : DhtKey) (xs : List DhtConnection)
      → in_connections w (remove_connection nonce xs) + at_connection w nonce xs
        ≡ in_connections w xs
  unfolding in_connections remove_connection at_connection
  remove_connection-count nonce [] = refl
  remove_connection-count nonce (k ∷ xs) = ground (arith, remove_connection-count nonce xs)

module _ (w : Tally) (h : IsTally w) where
  -- What is dropped from a table is ended.
  pub drop_lookup-count : (id : DhtId) (c : Client) → whereabouts w (drop_lookup id c) ≡ held w c
  drop_lookup-count id c = elim (Option-cases (find_lookup id c.lookup_table)) [
    | inl e ↦
        subst (λ p. whereabouts w p ≡ held w c) (sym (drop_lookup_missing id c e))
          (unfold ended in omega arith)
    | inr (l, e) ↦
        subst (λ p. whereabouts w p ≡ held w c) (sym (drop_lookup_found id l c e))
          (omega (
            arith,
            remove_lookup-count w id c.lookup_table,
            at_lookup_found w id l c.lookup_table e,
            h.lookup_out l,
          ))
  ]

  pub replace_lookup-count :
      (l : DhtLookup) (c : Client) → whereabouts w (replace_lookup l c) ≡ held w c + w.in_lookup l
  unfolding replace_lookup
  replace_lookup-count l c = elim (Option-cases (find_lookup l.id c.lookup_table)) [
    | inl e ↦
        rw (replace_lookup, e)
          (unfold ended in
            omega (
              arith,
              store_lookup-count w l c.lookup_table,
              at_lookup_missing w l.id c.lookup_table e,
            ))
    | inr (k, e) ↦
        rw (replace_lookup, e)
          (omega (
            arith,
            store_lookup-count w l c.lookup_table,
            at_lookup_found w l.id k c.lookup_table e,
            h.lookup_out k,
          ))
  ]

  pub replace_connection-count :
      (x : DhtConnection) (c : Client)
      → whereabouts w (replace_connection x c) ≡ held w c + w.in_connection x
  unfolding replace_connection
  replace_connection-count x c = elim (Option-cases (find_connection x.nonce c.connection_table)) [
    | inl e ↦
        rw (replace_connection, e)
          (unfold ended in
            omega (
              arith,
              store_connection-count w x c.connection_table,
              at_connection_missing w x.nonce c.connection_table e,
            ))
    | inr (y, e) ↦
        rw (replace_connection, e)
          (omega (
            arith,
            store_connection-count w x c.connection_table,
            at_connection_found w x.nonce y c.connection_table e,
            h.connection_out y,
          ))
  ]
