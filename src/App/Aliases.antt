-- ===== src/App/Aliases.antt =====
-- The aliases of src/application.c: the text that the user edits, and the tables that are read from it. The
-- text is in ASCII, its lines end with a newline; `is_space` is `g_ascii_isspace`.
pub mod Lines
use nanotalk.Base.{
  ℕ, ◌+◌, ◌-◌, Bool, true, false, ◌&&◌, Option, none, some, List, [], ◌∷◌, ◌++◌, ◌==◌, ltb,
  if◌then◌else◌, length, get_or, take, drop,
}
use nanotalk.Common.{Bytes, DhtId}
use nanotalk.Common.Text.{Base64, id_text_size, id_from_string}
use nanotalk.App.{App, store_entry}

-- The lines of a text, each with its newline, but for the last one, which may lack it.
unfoldable pub extend : ℕ → List Bytes → List Bytes
extend c [] = (c ∷ []) ∷ []
extend c (line ∷ rest) = (c ∷ line) ∷ rest

unfoldable pub lines : Bytes → List Bytes
lines [] = []
lines (c ∷ cs) = let rest = lines cs in if c == 10 then (c ∷ []) ∷ rest else extend c rest

-- `g_strstrip`.
unfoldable pub strip_start : (ℕ → Bool) → Bytes → Bytes
strip_start is_space [] = []
strip_start is_space (c ∷ cs) =
    let rest = strip_start is_space cs in if is_space c then rest else c ∷ cs

unfoldable pub is_empty : Bytes → Bool
is_empty [] = true
is_empty (c ∷ cs) = false

unfoldable pub strip_end : (ℕ → Bool) → Bytes → Bytes
strip_end is_space [] = []
strip_end is_space (c ∷ cs) =
    let rest = strip_end is_space cs in if is_space c && is_empty rest then [] else c ∷ rest

abbrev pub strip : (ℕ → Bool) → Bytes → Bytes
strip is_space text = strip_end is_space (strip_start is_space text)

-- An alias enters the list for completion and both tables.
unfoldable pub add_alias : Bytes → DhtId → App → App
add_alias alias id a = record a {
  aliases_list = a.aliases_list ++ (alias ∷ []);
  alias2id_table = store_entry alias id a.alias2id_table;
  id2alias_table = store_entry id alias a.id2alias_table;
}

module _ (b : Base64) (is_space : ℕ → Bool) where
  -- What `completion_update` does with a line.
  unfoldable pub add_line : Bytes → App → App
  add_line line a =
      if ltb id_text_size (length line)
      then elim (id_from_string b (take id_text_size line)) [
        | none ↦ a
        | some id ↦
            let alias = strip is_space (drop id_text_size line) in
            if is_empty alias then a else add_alias alias id a
      ]
      else a

  unfoldable pub add_lines : List Bytes → App → App
  add_lines [] a = a
  add_lines (line ∷ rest) a = add_lines rest (add_line line a)

  -- `completion_update`: at the end the text gets the newline that it may lack.
  unfoldable pub completion_update : App → App
  completion_update a =
      let text = a.aliases_buffer in
      let a1 = add_lines (lines text) a in
      if get_or text (length text - 1) 0 == 10
      then a1
      else record a1 { aliases_buffer = text ++ (10 ∷ []); is_modified = true }

  -- `editor_save`, and what it writes to the file.
  unfoldable pub editor_save : App → App × Option Bytes
  editor_save a =
      if a.is_modified
      then (let a1 : App = record a {
        is_modified = false;
        aliases_list = [];
        alias2id_table = [];
        id2alias_table = [];
      } in
          let a2 = completion_update a1 in (a2, some a2.aliases_buffer))
      else (a, none)

  -- `application_startup` with the file of aliases, if it can be read.
  unfoldable pub load_aliases : Option Bytes → App → App
  load_aliases none a = a
  load_aliases (some text) a =
      completion_update (record a { aliases_buffer = text; is_modified = false })
