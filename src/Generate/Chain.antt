-- ===== src/Generate/Chain.antt =====
-- Steps that are made one behind the other while each gives a result (the calls of the generators in lib/plsql.go,
-- lib/proto.go and lib/objects, whose errors are passed on).
use oracall.Text.{Bytes}
use oracall.Generate.{Result, ok, err, panic, IfOk}

-- a step, and the ones behind it
infixl 5 ◌>>=◌
unfoldable pub ◌>>=◌ {ℓ κ} : {A : Type ℓ} {B : Type κ} → Result A → (A → Result B) → Result B
ok a >>= f = f a
err e >>= f = err e
panic >>= f = panic

-- the result, if there is one, has the property
pub record Safe {A : Type 0} (P : A → Type 0) (r : Result A) : Type 0 where
  pub safe : IfOk P r

module _ {A : Type 0} {P : A → Type 0} where
  pub ok-Safe : (a : A) → P a → Safe P (ok a)
  ok-Safe a h = record { safe = h }

  pub err-Safe : (e : Bytes) → Safe P (err e)
  err-Safe e = record { safe = tt }

  pub panic-Safe : Safe P panic
  panic-Safe = record { safe = tt }

  pub bind-Safe {ℓ} :
      {B : Type ℓ} (r : Result B) (f : B → Result A) → ((b : B) → Safe P (f b)) → Safe P (r >>= f)
  unfolding ◌>>=◌
  bind-Safe (ok b) f h = h b
  bind-Safe (err e) f h = err-Safe e
  bind-Safe panic f h = panic-Safe

pub then-Safe :
    {A B : Type 0} {P : A → Type 0} {Q : B → Type 0} (r : Result A) (f : A → Result B)
    → Safe P r
    → ((a : A) → P a → Safe Q (f a))
    → Safe Q (r >>= f)
unfolding ◌>>=◌
then-Safe (ok a) f hr h = h a hr.safe
then-Safe (err e) f hr h = err-Safe e
then-Safe panic f hr h = panic-Safe

-- there is a result, and it has the property
pub data Gives {A : Type 0} (P : A → Type 0) : Result A → Type 0 where
  gives : {a : A} → P a → Gives P (ok a)

pub then-Gives :
    {A B : Type 0} {P : A → Type 0} {Q : B → Type 0} (r : Result A) (f : A → Result B)
    → Gives P r
    → ((a : A) → P a → Gives Q (f a))
    → Gives Q (r >>= f)
unfolding ◌>>=◌
then-Gives _ f (gives p) h = h _ p

pub Gives-map :
    {A : Type 0} {P Q : A → Type 0} {r : Result A} → Gives P r → ((a : A) → P a → Q a) → Gives Q r
Gives-map (gives {a = a} p) h = gives (h a p)
