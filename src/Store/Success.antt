-- ===== src/Store/Success.antt =====
-- What a run that returns says of its parts.
use ange_media_gateway.Base.{◌≡◌, refl, Bool, true, false, Option, none, some, subst}
use ange_media_gateway.Store.Schema.{World, Db}
use ange_media_gateway.Store.Effects.{
  Exec, Outcome, ok, raised, Error, ◌>>=◌, continue, ensure, db_transaction, end_transaction, pure,
  try_except, handle_outcome, resume,
}

pub ok-injective : {A : Type 0} (a b : A) → ok a ≡ ok b → a ≡ b
ok-injective a b h = cc

module _ {A B : Type 0} where
  continue_returns :
      (r : Outcome A) (f : A → Exec B) (w : World) (b : B)
      → (continue r f w).0 ≡ ok b
      → (a : A) × (r ≡ ok a) × ((f a w).0 ≡ ok b) × (continue r f w ≡ f a w)
  continue_returns (ok a) f w b h = (a, refl, h, refl)
  continue_returns (raised e) f w b h = cc

  -- A sequence that returns: its first part returns, and the rest runs from where that ended.
  pub bind_returns :
      (m : Exec A) (f : A → Exec B) (w : World) (b : B)
      → ((m >>= f) w).0 ≡ ok b
      → (a : A) × ((m w).0 ≡ ok a) × ((f a (m w).1).0 ≡ ok b) × ((m >>= f) w ≡ f a (m w).1)
  unfolding ◌>>=◌
  bind_returns m f w b h = continue_returns (m w).0 f (m w).1 b h

module _ {A : Type 0} where
  pub ensure_returns :
      (t : Bool) (e : Error) (n : Exec A) (w : World) (b : A)
      → ((ensure t e >>= λ _. n) w).0 ≡ ok b
      → (t ≡ true) × ((n w).0 ≡ ok b) × ((ensure t e >>= λ _. n) w ≡ n w)
  unfolding ensure ◌>>=◌
  ensure_returns true e n w b h = (refl, h, refl)
  ensure_returns false e n w b h = cc

  ended :
      (before : Db) (r : Outcome A) (w : World) (a : A)
      → (end_transaction before r w).0 ≡ ok a
      → (r ≡ ok a) × (end_transaction before r w ≡ (r, w))
  ended before (ok x) w a h = (h, refl)
  ended before (raised e) w a h = cc

  -- A transaction that returns has committed.
  pub transaction_returns :
      (m : Exec A) (w : World) (a : A)
      → (db_transaction m w).0 ≡ ok a
      → ((m w).0 ≡ ok a) × (db_transaction m w ≡ m w)
  unfolding db_transaction
  transaction_returns m w a h = ended w.db (m w).0 (m w).1 a h

  undone :
      (before : Db) (r : Outcome A) (w : World) (e : Error)
      → (end_transaction before r w).0 ≡ raised e
      → (end_transaction before r w).1.db ≡ before
  undone before (ok x) w e h = cc
  undone before (raised x) w e h = refl

  -- A transaction that raises leaves the tables as they were.
  pub transaction_raises :
      (m : Exec A) (w : World) (e : Error)
      → (db_transaction m w).0 ≡ raised e
      → (db_transaction m w).1.db ≡ w.db
  unfolding db_transaction
  transaction_raises m w e h = undone w.db (m w).0 (m w).1 e h

-- What a run gives, if it returns, has the property.
pub record Returns {A : Type 0} (P : A → Type 0) (m : Exec A) : Type 0 where
  pub holds : (w : World) (a : A) → (m w).0 ≡ ok a → P a

module _ {A B : Type 0} where
  pub Returns-bind :
      {P : A → Type 0} {Q : B → Type 0} {m : Exec A} {f : A → Exec B}
      → Returns P m
      → ((a : A) → P a → Returns Q (f a))
      → Returns Q (m >>= f)
  Returns-bind {m} {f} hm hf = record {
    holds = λ w b h.
        let (a, first, rest, same) = bind_returns m f w b h in
        (hf a (hm.holds w a first)).holds (m w).1 b rest;
  }

  -- A case split on how an action ended.
  pub Returns-outcome :
      {Q : B → Type 0} (r : Outcome A) {h : Error → Exec B} {f : A → Exec B}
      → ((e : Error) → r ≡ raised e → Returns Q (h e))
      → ((a : A) → r ≡ ok a → Returns Q (f a))
      → Returns Q (elim r [ raised e ↦ h e | ok a ↦ f a ])
  Returns-outcome (ok a) hh hf = hf a refl
  Returns-outcome (raised e) hh hf = hh e refl

module _ {A : Type 0} where
  pub Returns-any : (m : Exec A) → Returns (λ a. Unit {0}) m
  Returns-any m = record { holds = λ w a h. tt }

  pub Returns-pure : {P : A → Type 0} (a : A) → P a → Returns P (pure a)
  unfolding pure
  Returns-pure {P} a p = record { holds = λ w b h. subst P (ok-injective _ _ h) p }

  pub Returns-try_except :
      {P : A → Type 0} {m : Exec A} {h : Error → Option (Exec A)}
      → Returns P m
      → ((e : Error) (k : Exec A) → h e ≡ some k → Returns P k)
      → Returns P (try_except m h)
  unfolding try_except
  Returns-try_except {P} {m} {h} hm hh = record {
    holds = λ w a r. handled (m w).0 (m w).1 a (λ x e. hm.holds w x e) r;
  }
    where
      resumed :
          (o : Option (Exec A)) (e : Error) (v : World) (a : A)
          → h e ≡ o
          → (resume o e v).0 ≡ ok a
          → P a
      resumed none e v a same r = cc
      resumed (some k) e v a same r = (hh e k same).holds v a r

      handled :
          (o : Outcome A) (v : World) (a : A)
          → ((x : A) → o ≡ ok x → P x)
          → (handle_outcome o h v).0 ≡ ok a
          → P a
      handled (ok x) v a p r = p a r
      handled (raised e) v a p r = resumed (h e) e v a refl r
