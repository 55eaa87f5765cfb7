-- ===== src/Evolution/Relates.antt =====
-- A reflexive and transitive relation on worlds that an action respects, whatever its outcome: one
-- rule for each way to build an action.
use ange_media_gateway.Base.{
  ℕ, suc, ◌≡◌, refl, Bool, true, false, Option, none, some, if◌then◌else◌,
}
use ange_media_gateway.Store.{
  dict_of_row, Db, Env, World, Error, Outcome, ok, raised, Exec, pure, raise, reads, write,
  modify_db, ensure, now_iso, uuid4_hex, db_transaction, try_except, catch_all, ◌>>=◌, ◌>>◌,
}
use ange_media_gateway.Store

pub record IsPreorder (R : World → World → Type 0) : Type 0 where
  pub refl_law : (a : World) → R a a
  pub trans_law : (a b c : World) → R a b → R b c → R a c
  -- A reading of the clock changes nothing that matters.
  pub ticks_law : (a : World) (n : ℕ) → R a (record a { ticks = n })
  -- Nor does a change of the tables that is rolled back.
  pub rollback_law : (a b : World) → R a b → R a (record b { db = a.db })

pub record Relates (R : World → World → Type 0) {A : Type 0} (m : Exec A) : Type 0 where
  pub at : (w : World) → R w (m w).1

-- A relation on the tables alone.
pub record IsTablePreorder (S : Db → Db → Type 0) : Type 0 where
  pub same_law : (a : Db) → S a a
  pub chain_law : (a b c : Db) → S a b → S b c → S a c

abbrev pub OnTables : (Db → Db → Type 0) → World → World → Type 0
OnTables S a b = S a.db b.db

pub tables_order : {S : Db → Db → Type 0} → IsTablePreorder S → IsPreorder (OnTables S)
tables_order t = record {
  refl_law = λ a. t.same_law a.db;
  trans_law = λ a b c p q. t.chain_law a.db b.db c.db p q;
  ticks_law = λ a n. t.same_law a.db;
  rollback_law = λ a b p. t.same_law a.db;
}

module _ {R : World → World → Type 0} ⦃o : IsPreorder R⦄ where
  open o use {refl_law, trans_law, ticks_law, rollback_law}

  pub Relates-pure : {A : Type 0} (a : A) → Relates R (pure a)
  unfolding pure
  Relates-pure a = record { at = λ w. refl_law w }

  pub Relates-raise : {A : Type 0} (e : Error) → Relates R (raise {A = A} e)
  unfolding raise
  Relates-raise e = record { at = λ w. refl_law w }

  pub Relates-reads : {A : Type 0} (f : Db → A) → Relates R (reads f)
  unfolding reads
  Relates-reads f = record { at = λ w. refl_law w }

  pub Relates-ensure : (b : Bool) (e : Error) → Relates R (ensure b e)
  unfolding ensure
  Relates-ensure true e = record { at = λ w. refl_law w }
  Relates-ensure false e = record { at = λ w. refl_law w }

  pub Relates-now_iso : (env : Env) → Relates R (now_iso env)
  unfolding now_iso
  Relates-now_iso env = record { at = λ w. ticks_law w (suc w.ticks) }

  pub Relates-uuid4_hex : (env : Env) → Relates R (uuid4_hex env)
  unfolding uuid4_hex
  Relates-uuid4_hex env = record { at = λ w. ticks_law w (suc w.ticks) }

  pub Relates-dict_of_row : {A : Type 0} (r : Option A) → Relates R (dict_of_row r)
  unfolding dict_of_row
  Relates-dict_of_row none = record { at = λ w. refl_law w }
  Relates-dict_of_row (some a) = record { at = λ w. refl_law w }

  pub Relates-modify_db :
      (f : Db → Db) → ((a : World) → R a (record a { db = f a.db })) → Relates R (modify_db f)
  unfolding modify_db
  Relates-modify_db f h = record { at = λ w. h w }

  pub Relates-write :
      {A : Type 0} (f : Db → Db) (x : A)
      → ((a : World) → R a (record a { db = f a.db }))
      → Relates R (write f x)
  unfolding write
  Relates-write f x h = record { at = λ w. h w }

  pub Relates-if :
      {A : Type 0} (b : Bool) {m n : Exec A}
      → Relates R m
      → Relates R n
      → Relates R (if b then m else n)
  Relates-if true hm hn = hm
  Relates-if false hm hn = hn

  pub Relates-continue :
      {A B : Type 0} (r : Outcome A) (f : A → Exec B) (w a : World)
      → R a w
      → ((x : A) → Relates R (f x))
      → R a (Store.continue r f w).1
  Relates-continue (ok x) f w a h hf = trans_law a w _ h ((hf x).at w)
  Relates-continue (raised e) f w a h hf = h

  pub Relates-bind :
      {A B : Type 0} {m : Exec A} {f : A → Exec B}
      → Relates R m
      → ((a : A) → Relates R (f a))
      → Relates R (m >>= f)
  unfolding ◌>>=◌
  Relates-bind {m = m} {f = f} hm hf = record {
    at = λ w. Relates-continue (m w).0 f (m w).1 w (hm.at w) hf;
  }

  pub Relates-db_transaction :
      {A : Type 0} {m : Exec A} → Relates R m → Relates R (db_transaction m)
  unfolding db_transaction
  Relates-db_transaction {A = A} {m = m} h = record { at = λ w. go w (m w).0 (m w).1 (h.at w) }
    where
      go : (a : World) (r : Outcome A) (w : World) → R a w → R a (Store.end_transaction a.db r w).1
      go a (ok x) w p = p
      go a (raised e) w p = rollback_law a w p

  pub Relates-try_except :
      {A : Type 0} {m : Exec A} {h : Error → Option (Exec A)}
      → Relates R m
      → ((e : Error) (k : Exec A) → h e ≡ some k → Relates R k)
      → Relates R (try_except m h)
  unfolding try_except
  Relates-try_except {A = A} {m = m} {h = h} hm hk = record {
    at = λ w. go w (m w).0 (m w).1 (hm.at w);
  }
    where
      resumed :
          (a w : World) (e : Error) (o : Option (Exec A))
          → R a w
          → h e ≡ o
          → R a (Store.resume o e w).1
      resumed a w e none ha p = ha
      resumed a w e (some k) ha p = trans_law a w _ ha ((hk e k p).at w)

      go : (a : World) (r : Outcome A) (w : World) → R a w → R a (Store.handle_outcome r h w).1
      go a (ok x) w ha = ha
      go a (raised e) w ha = resumed a w e (h e) ha refl

  -- Neither outcome of `m` is lost, so the handler may be left to what follows.
  pub Relates-catch_all : {A : Type 0} {m : Exec A} → Relates R m → Relates R (catch_all m)
  unfolding catch_all
  Relates-catch_all h = record { at = λ w. h.at w }

  -- A case split on an optional value.
  pub Relates-option :
      {A B : Type 0} (o : Option A) {m : Exec B} {f : A → Exec B}
      → Relates R m
      → ((a : A) → Relates R (f a))
      → Relates R (elim o [ none ↦ m | some a ↦ f a ])
  Relates-option none hm hf = hm
  Relates-option (some a) hm hf = hf a

  -- A case split on how an action ended.
  pub Relates-outcome :
      {A B : Type 0} (r : Outcome A) {h : Error → Exec B} {f : A → Exec B}
      → ((e : Error) → Relates R (h e))
      → ((a : A) → Relates R (f a))
      → Relates R (elim r [ raised e ↦ h e | ok a ↦ f a ])
  Relates-outcome (ok a) hh hf = hf a
  Relates-outcome (raised e) hh hf = hh e
