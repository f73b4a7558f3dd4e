-- ===== src/Source/Item.antt =====
-- The items that the lexer sends (source/lex.go): their types and their values.
use oracall.Prelude.{Bool, true, false, List, [], ◌∷◌, ◌++◌}
use oracall.Text.{Bytes, codes}

-- itemType; the constants are numbered from 0
pub data ItemType : Type 0 where
  item_error item_eof item_text item_comment item_sep item_string : ItemType

-- Item
pub record Item : Type 0 where
  pub typ : ItemType
  pub val : Bytes

-- NewItem
abbrev pub new_item : ItemType → Bytes → Item
new_item t v = record { typ = t; val = v }

-- itemType.String
unfoldable pub type_name : ItemType → Bytes
type_name item_error = codes "ERROR"
type_name item_eof = codes "EOF"
type_name item_text = codes "text"
type_name item_comment = codes "comment"
type_name item_sep = codes "sep"
type_name item_string = codes "string"

abbrev pub is_eof : ItemType → Bool
is_eof item_eof = true
is_eof _ = false

-- the values of the items, one behind the other
abbrev pub values : List Item → Bytes
values [] = []
values (it ∷ its) = it.val ++ values its
