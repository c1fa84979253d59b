-- ===== src/App/Aliases/Lines.antt =====
-- From a line of the text of aliases to the tables that calls look into.
use nanotalk.Base.{
  ℕ, ◌-◌, ◌<◌, ◌≡◌, refl, sym, ap, ◌∙◌, subst, inl, inr, Bool, true, false, some, List, [], ◌∷◌,
  ◌++◌, append_assoc, ◌==◌, ltb, length, length-append, get_or, take-append_left, drop-append_left,
  All, All-append, bytes_eq, bytes_eq_self, Bool-cases, if_both, arith,
}
use nanotalk.Common.{Bytes, DhtId, id_size}
use nanotalk.Common.Text.{
  Base64, IsBase64, id_from_string, id_to_string, id_from_string-id_to_string,
}
use nanotalk.App.{App, find_entry, store_entry}
use nanotalk.App.Call.{entry_id, caller_text}
use nanotalk.App.Aliases.{
  extend, lines, strip, is_empty, add_alias, add_line, add_lines, completion_update,
}

pub find-store_entry {ℓ} :
    {A : Type ℓ} (key : Bytes) (x : A) (es : List (Bytes × A))
    → find_entry key (store_entry key x es) ≡ some x
unfolding find_entry store_entry
find-store_entry key x [] = rw (bytes_eq_self key)
find-store_entry key x ((k, y) ∷ es) = elim (Bool-cases (bytes_eq k key)) [
  | inl e ↦ rw (e, e)
  | inr e ↦ rw (e, e, find-store_entry key x es)
]

-- A text splits at each newline.
extend-append :
    (c : ℕ) (xs ys : List Bytes) → 0 < length xs → extend c (xs ++ ys) ≡ extend c xs ++ ys
unfolding extend
extend-append c [] ys h = absurd (omega (arith, h))
extend-append c (x ∷ xs) ys h = refl

extend_some : (c : ℕ) (xs : List Bytes) → 0 < length (extend c xs)
unfolding extend
extend_some c [] = omega arith
extend_some c (x ∷ xs) = omega arith

lines_some : (x : Bytes) (c : ℕ) → 0 < length (lines (x ++ (c ∷ [])))
unfolding lines
lines_some [] c = ground (arith, extend_some c [])
lines_some (d ∷ x) c = ground (arith, lines_some x c, extend_some d (lines (x ++ (c ∷ []))))

lines-append : (x y : Bytes) → lines (x ++ (10 ∷ y)) ≡ lines (x ++ (10 ∷ [])) ++ lines y
unfolding lines
lines-append [] y = refl
lines-append (c ∷ x) y = elim (Bool-cases (c == 10)) [
  | inl e ↦ rw (e, lines-append x y)
  | inr e ↦
      rw (e, lines-append x y)
        (extend-append c (lines (x ++ (10 ∷ []))) (lines y) (lines_some x 10))
]

lines_one :
    (x : Bytes) → All (λ c. (c == 10) ≡ false) x → lines (x ++ (10 ∷ [])) ≡ (x ++ (10 ∷ [])) ∷ []
unfolding lines extend
lines_one [] h = refl
lines_one (c ∷ x) (e, h) = rw (e, lines_one x h)

add_lines-append :
    (b : Base64) (is_space : ℕ → Bool) (xs ys : List Bytes) (a : App)
    → add_lines b is_space (xs ++ ys) a ≡ add_lines b is_space ys (add_lines b is_space xs a)
unfolding add_lines
add_lines-append b is_space [] ys a = refl
add_lines-append b is_space (x ∷ xs) ys a =
    add_lines-append b is_space xs ys (add_line b is_space x a)

-- A line with an identifier and an alias behind it.
add_line_alias :
    (b : Base64) (is_space : ℕ → Bool) (id : DhtId) (rest alias : Bytes) (a : App)
    → IsBase64 b
    → length id ≡ id_size
    → 0 < length rest
    → strip is_space rest ≡ alias
    → is_empty alias ≡ false
    → add_line b is_space (id_to_string b id ++ rest) a ≡ add_alias alias id a
unfolding add_line id_to_string
add_line_alias b is_space id rest alias a h e some_rest stripped named =
    let size = h.encode_length id e in
    let long : ltb 28 (length (b.encode id ++ rest)) ≡ true =
      ground (arith, length-append (b.encode id) rest, size, some_rest) in
    let read : id_from_string b (b.encode id) ≡ some id =
      unfold id_to_string in id_from_string-id_to_string b h id e in
    rw (
      long,
      take-append_left 28 (b.encode id) rest size,
      read,
      drop-append_left 28 (b.encode id) rest size,
      stripped,
      named,
    )

-- Where an alias and an identifier lead to each other.
abbrev pub IsKnown : Base64 → Bytes → DhtId → App → Type 0
IsKnown b alias id a =
    (entry_id b (record a { main_entry = alias }) ≡ some id) × (caller_text b id a ≡ alias)

add_alias-IsKnown :
    (b : Base64) (alias : Bytes) (id : DhtId) (a : App) → IsKnown b alias id (add_alias alias id a)
unfolding add_alias entry_id caller_text
add_alias-IsKnown b alias id a = (
  rw (entry_id, find-store_entry alias id a.alias2id_table),
  rw (caller_text, find-store_entry id alias a.id2alias_table),
)

-- With base64 as GLib documents it: when the last line of the text of aliases, behind another line,
-- is an identifier of 20 bytes in base64, followed by what strips to an alias that is not empty, then
-- after `completion_update` a call to this alias goes to this identifier, and a call from the identifier
-- shows the alias, whatever the lines before it say.
pub completion_update-IsKnown :
    (b : Base64) (is_space : ℕ → Bool) (before rest alias : Bytes) (id : DhtId) (a : App)
    → IsBase64 b
    → length id ≡ id_size
    → All (λ c. (c == 10) ≡ false) rest
    → strip is_space (rest ++ (10 ∷ [])) ≡ alias
    → is_empty alias ≡ false
    → a.aliases_buffer ≡ before ++ (10 ∷ ((id_to_string b id ++ rest) ++ (10 ∷ [])))
    → IsKnown b alias id (completion_update b is_space a)
unfolding completion_update id_to_string entry_id caller_text
completion_update-IsKnown b is_space before rest alias id a h e one_line stripped named text =
    let known : IsKnown b alias id (add_lines b is_space (lines a.aliases_buffer) a) =
      subst (IsKnown b alias id) (sym all_read)
        (add_alias-IsKnown b alias id (add_lines b is_space (lines (before ++ (10 ∷ []))) a)) in
    if_both (IsKnown b alias id) (get_or a.aliases_buffer (length a.aliases_buffer - 1) 0 == 10) _ _
      known known
  where
    line : Bytes
    line = (id_to_string b id ++ rest) ++ (10 ∷ [])

    before_it : App
    before_it = add_lines b is_space (lines (before ++ (10 ∷ []))) a

    split : lines a.aliases_buffer ≡ lines (before ++ (10 ∷ [])) ++ (line ∷ [])
    split =
        ap lines text
        ∙ lines-append before line
        ∙ ap (λ ls. lines (before ++ (10 ∷ [])) ++ ls)
            (lines_one (b.encode id ++ rest) (
              All-append (λ c. (c == 10) ≡ false) (b.encode id) rest (h.encode_line id e) one_line))

    last : add_line b is_space line before_it ≡ add_alias alias id before_it
    last =
        ap (λ l. add_line b is_space l before_it) (append_assoc (b.encode id) rest (10 ∷ []))
        ∙ add_line_alias b is_space id (rest ++ (10 ∷ [])) alias before_it h e
            (omega (arith, length-append rest (10 ∷ []))) stripped named

    all_read : add_lines b is_space (lines a.aliases_buffer) a ≡ add_alias alias id before_it
    all_read =
        ap (λ ls. add_lines b is_space ls a) split
        ∙ add_lines-append b is_space (lines (before ++ (10 ∷ []))) (line ∷ []) a
        ∙ unfold add_lines in last
