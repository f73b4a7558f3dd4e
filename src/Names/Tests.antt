-- ===== src/Names/Tests.antt =====
-- Names of lib/writestructs_test.go, and the instances of the theorems.
use oracall.Prelude.{◌≡◌, refl, ◌∷◌}
use oracall.Text.{codes}
use oracall.Names.{camel_case, snake_case, model_camel_case, uno_cap}
use oracall.Names.RoundTrip.{camel_case-snake_case}

camel_kotveny : camel_case (codes "f_kotveny_szam") ≡ codes "FKotvenySzam"
unfolding camel_case
camel_kotveny = refl

camel_model : model_camel_case (codes "partner_id") ≡ codes "PartnerID"
unfolding model_camel_case
camel_model = refl

uno_web : uno_cap (codes "db_WEB") ≡ codes "DB_web"
unfolding uno_cap
uno_web = refl

camel_case-snake_case_example :
    camel_case (snake_case (b'F' ∷ codes "tSzam")) ≡ b'F' ∷ codes "tSzam"
camel_case-snake_case_example =
    camel_case-snake_case b'F' (codes "tSzam") refl (refl, (refl, (refl, (refl, (refl, tt)))))
