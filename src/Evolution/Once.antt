-- ===== src/Evolution/Once.antt =====
-- Actions that call a provider at most once, for one job and one stage.
use ange_media_gateway.Evolution.OneTime.{IsOneTime}
use ange_media_gateway.Base.{inl, inr, sym}
use ange_media_gateway.Base.{◌∷◌, refl, inl, inr, sym}
-- No call, or one call, which is for this job and stage and is made only where `P` holds.
use ange_media_gateway.Base.{◌⊎◌, inr, ◌≡◌, inl, sym}
use Prim.Native.Nat.{ℕ}
use ange_media_gateway.Evolution.Silence.{Silent}
use ange_media_gateway.Evolution.Relates.{Relates}
use ange_media_gateway.Worker.Image.{call_provider}
use ange_media_gateway.Store.{Outcome, World, Stage}
use Prim.Native.String.{String}

pub record CallsAtMostOnce (P : Type 0) (id : String) (stage : Stage) (a b : World) : Type 0 where
  pub calls_made : (b.calls ≡ a.calls) ⊎ ((b.calls ≡ (id, stage) ∷ a.calls) × P)

instance pub once_one_time :
    {P : Type 0} {id : String} {stage : Stage} → IsOneTime Silent (CallsAtMostOnce P id stage)
once_one_time = record {
  from_law = λ a b h. record { calls_made = inl h.same_calls };
  after_law = λ a b c h k. record { calls_made = rw (sym h.same_calls) k.calls_made };
  before_law = λ a b c h k. record { calls_made = rw k.same_calls h.calls_made };
}

module _ {P : Type 0} {id : String} {stage : Stage} where
  pub call_provider-Once :
      {A : Type 0} (f : ℕ → Outcome A)
      → P
      → Relates (CallsAtMostOnce P id stage) (call_provider id stage f)
  unfolding call_provider
  call_provider-Once f p = record { at = λ w. record { calls_made = inr (refl, p) } }
