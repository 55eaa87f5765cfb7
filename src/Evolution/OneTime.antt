-- ===== src/Evolution/OneTime.antt =====
-- Actions that do something at most once: a relation `O` between the worlds before and after them,
-- beside a relation `S` of the actions that do not do it at all.
use mathlib.Core.Bool.{false}
use ange_media_gateway.Evolution.Relates.{Relates}
use ange_media_gateway.Store.{raised, ok, Outcome, ◌>>=◌, catch_all, Exec, World}
use ange_media_gateway.Store
use ange_media_gateway.Base.{if◌then◌else◌, true, ◌≡◌, Bool, refl}

pub record IsOneTime (S O : World → World → Type 0) : Type 0 where
  pub from_law : (a b : World) → S a b → O a b
  pub after_law : (a b c : World) → S a b → O b c → O a c
  pub before_law : (a b c : World) → O a b → S b c → O a c

module _ {S O : World → World → Type 0} ⦃t : IsOneTime S O⦄ where
  pub silent_first :
      {A B : Type 0} {m : Exec A} {f : A → Exec B}
      → Relates S m
      → ((a : A) → Relates O (f a))
      → Relates O (m >>= f)
  unfolding ◌>>=◌
  silent_first {A = A} {B = B} {m = m} {f = f} hm hf = record {
    at = λ w. go w (m w).0 (m w).1 (hm.at w);
  }
    where
      go : (a : World) (r : Outcome A) (w : World) → S a w → O a (Store.continue r f w).1
      go a (ok x) w h = t.after_law a w _ h ((hf x).at w)
      go a (raised e) w h = t.from_law a w h

  pub silent_last :
      {A B : Type 0} {m : Exec A} {f : A → Exec B}
      → Relates O m
      → ((a : A) → Relates S (f a))
      → Relates O (m >>= f)
  unfolding ◌>>=◌
  silent_last {A = A} {B = B} {m = m} {f = f} hm hf = record {
    at = λ w. go w (m w).0 (m w).1 (hm.at w);
  }
    where
      go : (a : World) (r : Outcome A) (w : World) → O a w → O a (Store.continue r f w).1
      go a (ok x) w h = t.before_law a w _ h ((hf x).at w)
      go a (raised e) w h = h

  pub only_silent : {A : Type 0} {m : Exec A} → Relates S m → Relates O m
  only_silent h = record { at = λ w. t.from_law w _ (h.at w) }

module _ {O : World → World → Type 0} where
  pub caught : {A : Type 0} {m : Exec A} → Relates O m → Relates O (catch_all m)
  unfolding catch_all
  caught h = record { at = λ w. h.at w }

  -- Either branch, the first one where the test holds.
  pub if_so :
      {A : Type 0} (b : Bool) {x y : Exec A}
      → (b ≡ true → Relates O x)
      → Relates O y
      → Relates O (if b then x else y)
  if_so true hx hy = hx refl
  if_so false hx hy = hy
