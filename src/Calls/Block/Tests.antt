-- ===== src/Calls/Block/Tests.antt =====
-- A PL/SQL block (PlsqlBlock of lib/plsql.go) at examples.
use oracall.Prelude.{false, [], ◌∷◌, ◌≡◌, refl, arith}
use oracall.Text.{Bytes, codes}
use oracall.Build.Trees.{nil, node}
use oracall.Generate.{Result, ok, panic, quoted}
use oracall.Generate.Chain.{◌>>=◌, Gives}
use oracall.Generate.Samples.{number_in}
use oracall.Generate.Printf.{printf}
use oracall.Generate.Braces.{depth_after, depth_step}
use oracall.Calls.Parts.{Parts}
use oracall.Calls.Conversions.{Settings}
use oracall.Generate.VarNames.{get_var_name}
use oracall.Generate.PlsType.{mk_var_name}
use oracall.Calls.Prepare.{prepare_call, initial_parts}
use oracall.Calls.Block.{Called, plsql_block, plsql_text}
use oracall.Calls.Block.Whole.{result_of, plsql_block-Gives}
use oracall.Calls.Block.Closed.{ClosedParts, PlainCalled, ClosedPair}

abbrev f : Called
f = record {
  title = record { package_name = codes "pkg"; name = codes "f"; alias = [] };
  own_name = codes "pkg.f";
  real_name = codes "pkg.f";
  handle = codes "no_data_found" ∷ [];
  max_table_size = 0;
  args = node number_in nil nil;
  returns = nil;
  shown = λ s. s;
}

abbrev parts : Parts
parts = record (initial_parts []) {
  decls = codes "i1 PLS_INTEGER;" ∷ [];
  pre = [];
  post = [];
  conv_in = codes "if x { y }" ∷ [];
  conv_out = [];
}

block_test :
    plsql_text f.handle parts (codes "pkg.f(x)")
    ≡ codes
        "DECLARE\n  i1 PLS_INTEGER;\n\nBEGIN\n  BEGIN\n    pkg.f(x);\n  EXCEPTION WHEN no_data_found THEN NULL;\n  END;\n\n\nEND;\n"
unfolding printf
block_test = refl

-- a call in which the name of the function does not stand
not_found_test : plsql_block f [] (ok (parts, codes "g(x)")) ≡ panic
unfolding plsql_block ◌>>=◌
not_found_test = refl

plain_f : PlainCalled f
plain_f = record {
  plain_title = record { plain_package = ground arith; plain_name = ground arith };
  plain_own = ground arith;
  plain_display = ground arith;
  plain_real = ground arith;
  plain_handle = (ground arith, tt);
  shown_closed = λ s h. h;
}

-- a function of one number
abbrev settings : Settings
settings = record { gogo = false; dump = λ a. a.name }

abbrev prepared : Result (Parts × Bytes)
prepared = prepare_call settings [] (codes "f") (codes "pkg.f") 128 (node number_in nil nil) nil

abbrev prepared_parts : Parts
prepared_parts = result_of (initial_parts []) prepared

prepared_ok : prepared ≡ ok (prepared_parts, codes "pkg.f(p_id=>:p_id)")
unfolding prepare_call ◌>>=◌ get_var_name
prepared_ok = refl

prepared_closed : ClosedParts prepared_parts
unfolding prepare_call ◌>>=◌ get_var_name depth_after depth_step mk_var_name quoted
prepared_closed = record {
  closed_decls = (record { balanced = λ d. refl }, (record { balanced = λ d. refl }, tt));
  closed_pre = tt;
  closed_post = tt;
  closed_in = (record { balanced = λ d. refl }, (record { balanced = λ d. refl }, tt));
  closed_out = tt;
}

plsql_block-Gives_example : Gives ClosedPair (plsql_block f (codes "check") prepared)
plsql_block-Gives_example =
    plsql_block-Gives f (codes "check") settings [] (codes "f") 128 prepared_parts
      (codes "pkg.f(p_id=>:p_id)") prepared_ok plain_f (ground arith) prepared_closed (ground arith)
