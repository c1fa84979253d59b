-- ===== src/Client/Tables.antt =====
-- The tables of a client behave as hash tables: what is stored under a key is found and removed under
-- that key.
use mathlib.Core.Option.{some-injective}
use nanotalk.Base.{
  ◌≡◌, ◌⊎◌, inl, inr, refl, sym, ap, ◌∙◌, Bool, true, false, Option, none, some, List, [], ◌∷◌,
  if◌then◌else◌, bytes_eq, bytes_eq_self, bytes_eq_sound, Bool-cases, All, subst, if_both, arith,
}
use nanotalk.Common.{DhtId, DhtKey}
use nanotalk.Client.{
  DhtLookup, DhtConnection, Client, find_lookup, store_lookup, remove_lookup, drop_lookup,
  destroy_lookup, find_connection, store_connection, remove_connection, drop_connection,
  destroy_connection,
}

pub chosen {ℓ} :
    {A : Type ℓ} (test : Bool) (y x : A) (rest : Option A)
    → (if test then some y else rest) ≡ some x
    → ((test ≡ true) × (y ≡ x)) ⊎ (rest ≡ some x)
chosen true y x rest e = inl (refl, some-injective y x e)
chosen false y x rest e = inr e

pub find_lookup-id :
    (id : DhtId) (l : DhtLookup) (ls : List DhtLookup) → find_lookup id ls ≡ some l → l.id ≡ id
unfolding find_lookup
find_lookup-id id l [] e = absurd (ground arith)
find_lookup-id id l (k ∷ ls) e = elim (chosen (bytes_eq k.id id) k l (find_lookup id ls) e) [
  | inl (same, eq) ↦ ap (λ (z : DhtLookup). z.id) (sym eq) ∙ bytes_eq_sound k.id id same
  | inr later ↦ find_lookup-id id l ls later
]

pub find-store_lookup :
    (l : DhtLookup) (ls : List DhtLookup) → find_lookup l.id (store_lookup l ls) ≡ some l
unfolding find_lookup store_lookup
find-store_lookup l [] = rw (bytes_eq_self l.id)
find-store_lookup l (k ∷ ls) = elim (Bool-cases (bytes_eq k.id l.id)) [
  | inl e ↦ rw (e, bytes_eq_self l.id)
  | inr e ↦ rw (e, e, find-store_lookup l ls)
]

-- What each lookup of the table has.
module _ (P : DhtLookup → Type 0) where
  pub find_lookup-All :
      (id : DhtId) (l : DhtLookup) (ls : List DhtLookup)
      → All P ls
      → find_lookup id ls ≡ some l
      → P l
  unfolding find_lookup
  find_lookup-All id l [] h e = absurd (ground arith)
  find_lookup-All id l (k ∷ ls) (one, h) e =
      elim (chosen (bytes_eq k.id id) k l (find_lookup id ls) e) [
        | inl (same, eq) ↦ subst P eq one
        | inr later ↦ find_lookup-All id l ls h later
      ]

  pub remove_lookup-All :
      (id : DhtId) (ls : List DhtLookup) → All P ls → All P (remove_lookup id ls)
  unfolding remove_lookup
  remove_lookup-All id [] h = tt
  remove_lookup-All id (k ∷ ls) (one, h) =
      if_both (All P) (bytes_eq k.id id) _ _ h (one, remove_lookup-All id ls h)

  -- A lookup takes the place of one that need not have it.
  pub store_lookup-All :
      (l : DhtLookup) (ls : List DhtLookup)
      → P l
      → All P (remove_lookup l.id ls)
      → All P (store_lookup l ls)
  unfolding remove_lookup store_lookup
  store_lookup-All l [] one h = (one, tt)
  store_lookup-All l (k ∷ ls) one h = elim (Bool-cases (bytes_eq k.id l.id)) [
    | inl e ↦ rw e (one, subst (λ b. All P (if b then ls else k ∷ remove_lookup l.id ls)) e h)
    | inr e ↦
        let rest : P k × All P (remove_lookup l.id ls) =
          subst (λ b. All P (if b then ls else k ∷ remove_lookup l.id ls)) e h in
        rw e (rest.0, store_lookup-All l ls one rest.1)
  ]

pub remove-store_lookup :
    (l : DhtLookup) (ls : List DhtLookup)
    → remove_lookup l.id (store_lookup l ls) ≡ remove_lookup l.id ls
unfolding remove_lookup store_lookup
remove-store_lookup l [] = rw (bytes_eq_self l.id)
remove-store_lookup l (k ∷ ls) = elim (Bool-cases (bytes_eq k.id l.id)) [
  | inl e ↦ rw (e, bytes_eq_self l.id)
  | inr e ↦ rw (e, e, remove-store_lookup l ls)
]

pub drop_lookup_found :
    (id : DhtId) (l : DhtLookup) (c : Client)
    → find_lookup id c.lookup_table ≡ some l
    → drop_lookup id c
      ≡ (record c { lookup_table = remove_lookup id c.lookup_table }, destroy_lookup l)
unfolding drop_lookup
drop_lookup_found id l c e = rw (drop_lookup, e)

pub drop_lookup_missing :
    (id : DhtId) (c : Client) → find_lookup id c.lookup_table ≡ none → drop_lookup id c ≡ (c, [])
unfolding drop_lookup
drop_lookup_missing id c e = rw (drop_lookup, e)

pub find-store_connection :
    (x : DhtConnection) (xs : List DhtConnection)
    → find_connection x.nonce (store_connection x xs) ≡ some x
unfolding find_connection store_connection
find-store_connection x [] = rw (bytes_eq_self x.nonce)
find-store_connection x (y ∷ xs) = elim (Bool-cases (bytes_eq y.nonce x.nonce)) [
  | inl e ↦ rw (e, bytes_eq_self x.nonce)
  | inr e ↦ rw (e, e, find-store_connection x xs)
]

pub find_connection-nonce :
    (nonce : DhtKey) (x : DhtConnection) (xs : List DhtConnection)
    → find_connection nonce xs ≡ some x
    → x.nonce ≡ nonce
unfolding find_connection
find_connection-nonce nonce x [] e = absurd (ground arith)
find_connection-nonce nonce x (y ∷ xs) e =
    elim (chosen (bytes_eq y.nonce nonce) y x (find_connection nonce xs) e) [
      | inl (same, eq) ↦
          ap (λ (z : DhtConnection). z.nonce) (sym eq) ∙ bytes_eq_sound y.nonce nonce same
      | inr later ↦ find_connection-nonce nonce x xs later
    ]

pub remove-store_connection :
    (x : DhtConnection) (xs : List DhtConnection)
    → remove_connection x.nonce (store_connection x xs) ≡ remove_connection x.nonce xs
unfolding remove_connection store_connection
remove-store_connection x [] = rw (bytes_eq_self x.nonce)
remove-store_connection x (y ∷ xs) = elim (Bool-cases (bytes_eq y.nonce x.nonce)) [
  | inl e ↦ rw (e, bytes_eq_self x.nonce)
  | inr e ↦ rw (e, e, remove-store_connection x xs)
]

pub drop_connection_found :
    (nonce : DhtKey) (x : DhtConnection) (c : Client)
    → find_connection nonce c.connection_table ≡ some x
    → drop_connection nonce c ≡ (
      record c { connection_table = remove_connection nonce c.connection_table },
      destroy_connection x,
    )
unfolding drop_connection
drop_connection_found nonce x c e = rw (drop_connection, e)
