-- ===== src/Rows.antt =====
-- The rows of user_arguments and how they are filtered and grouped by program (lib/readcsv.go).
-- An iterator is the list of what it yields to a consumer that takes everything.
pub mod Groups
mod Tests
use oracall.Prelude.{
  ℕ, Bool, true, false, not, ◌&&◌, ◌||◌, List, [], ◌∷◌, ◌++◌, Option, none, some, ◌==◌,
  if◌then◌else◌, ◌≡◌, ◌↔◌, refl, arith,
}
use oracall.Text.{Bytes, eqb, eqb_iff}

-- UserArgument; a time is a number
pub record UserArgument : Type 0 where
  pub package_name : Bytes
  pub object_name : Bytes
  pub last_ddl : ℕ
  pub argument_name : Bytes
  pub in_out : Bytes
  pub data_type : Bytes
  pub character_set_name : Bytes
  pub index_by : Bytes
  pub pls_type : Bytes
  pub type_link : Bytes
  pub type_owner : Bytes
  pub type_name : Bytes
  pub type_subname : Bytes
  pub object_id : ℕ
  pub subprogram_id : ℕ
  pub char_length : ℕ
  pub position : ℕ
  pub data_precision : ℕ
  pub data_scale : ℕ
  pub data_level : ℕ

-- a filter that may be nil
abbrev pub Filter : Type 0
Filter = Option (Bytes → Bool)

-- `filter != nil && !filter(name)`
abbrev pub refuses : Filter → Bytes → Bool
refuses none name = false
refuses (some f) name = not (f name)

abbrev pub full_name : UserArgument → Bytes
full_name ua = ua.package_name ++ b'.' ∷ ua.object_name

-- filterArgs
unfoldable pub filter_args : List UserArgument → Filter → List UserArgument
filter_args [] filter = []
filter_args (ua ∷ uas) filter =
    let rest = filter_args uas filter in if refuses filter (full_name ua) then rest else ua ∷ rest

-- the local type program of groupArgs
pub record Program : Type 0 where
  pub pkg : Bytes
  pub object : Bytes
  pub id : ℕ
  pub sub_id : ℕ

abbrev pub zero_prog : Program
zero_prog = record { pkg = []; object = []; id = 0; sub_id = 0 }

abbrev pub program_of : UserArgument → Program
program_of ua = record {
  pkg = ua.package_name;
  object = ua.object_name;
  id = ua.object_id;
  sub_id = ua.subprogram_id;
}

-- `==` on programs
unfoldable pub same_program : Program → Program → Bool
same_program p q = eqb p.pkg q.pkg && eqb p.object q.object && p.id == q.id && p.sub_id == q.sub_id

pub same_program_iff : (p q : Program) → (same_program p q ≡ true) ↔ (p ≡ q)
unfolding same_program
same_program_iff p q = ground (arith, eqb_iff p.pkg q.pkg, eqb_iff p.object q.object)

-- whether groupArgs ends a group before a row of program `act`
abbrev pub ends_group : Program → Program → Bool
ends_group last act = not (same_program last zero_prog) && not (same_program last act)

-- yield(args), if there are any
abbrev pub yielded : List UserArgument → List (List UserArgument) → List (List UserArgument)
yielded [] rest = rest
yielded (ua ∷ uas) rest = (ua ∷ uas) ∷ rest

-- the loop of groupArgs
unfoldable pub group_loop :
    Program → List UserArgument → List UserArgument → List (List UserArgument)
group_loop last args [] = yielded args []
group_loop last args (ua ∷ uas) =
    let act = program_of ua in
    let fresh = group_loop act (ua ∷ []) uas in
    let longer = group_loop act (args ++ ua ∷ []) uas in
    if ends_group last act then yielded args fresh else longer

-- groupArgs
unfoldable pub group_args : List UserArgument → List (List UserArgument)
unfolding group_loop same_program
group_args uas = group_loop zero_prog [] uas

-- FilterAndGroupIter, and FilterAndGroup between channels
unfoldable pub filter_and_group : List UserArgument → Filter → List (List UserArgument)
unfolding filter_args group_args
filter_and_group uas filter = group_args (filter_args uas filter)
