-- ===== src/Dispatcher/Backoff.antt =====
-- How long the dispatcher waits before it tries a row again.
use ange_media_gateway.Base.{
  ◌∙◌, ap, sym, subst, ◌≡◌, ℕ, zero, suc, ◌+◌, ◌-◌, ◌*◌, ◌^◌, ◌≤◌, max, arith,
}
use ange_media_gateway.Base.{◌⊎◌, inl, inr, Bool-cases, leb, min, refl, true, false}
use Prim.Native.Nat.pow
use ange_media_gateway.Store.{ok, raised, other_error}
use ange_media_gateway.Dispatcher.{job_dispatcher, retry_delay}

doubling_grows : (b n k : ℕ) → b * 2 ^ n ≤ b * 2 ^ (n + k)
doubling_grows b n zero =
    let same : n ≡ n + 0 = omega arith in subst (λ x. b * 2 ^ n ≤ b * 2 ^ x) same (omega arith)
doubling_grows b n (suc k) =
    let ih = doubling_grows b n k in
    let sum : n + suc k ≡ suc (n + k) = omega arith in
    let step : 2 ^ (n + suc k) ≡ 2 ^ (n + k) * 2 = ap (λ x. 2 ^ x) sum ∙ pow.suc 2 (n + k) in
    subst (λ x. b * 2 ^ n ≤ b * x) (sym step) (omega arith)

pub doubling_order : (b n m : ℕ) → n ≤ m → b * 2 ^ n ≤ b * 2 ^ m
doubling_order b n m h =
    let later = doubling_grows b n (m - n) in
    let split : n + (m - n) ≡ m = omega arith in subst (λ x. b * 2 ^ n ≤ b * 2 ^ x) split later

-- With finite settings, the delay of a dispatcher for the attempts up to 1024 is there, never below its
-- base and never above its maximum, and a later one of these never waits less than an earlier one;
-- from attempt 1025 on there is no delay, but an OverflowError.
pub retry_delay_bounds :
    (batch_size lease_seconds max_attempts base maximum attempt more : ℕ)
    → (let c = job_dispatcher batch_size lease_seconds max_attempts base maximum in
        ((attempt + more ≤ 1024)
          × ((first : ℕ) × (later : ℕ) × (retry_delay c attempt ≡ ok first)
              × (retry_delay c (attempt + more) ≡ ok later)
              × (c.retry_base ≤ first)
              × (first ≤ c.retry_max)
              × (first ≤ later)))
        ⊎ ((1025 ≤ attempt + more)
            × (retry_delay c (attempt + more) ≡ raised (other_error "OverflowError"))))
unfolding job_dispatcher retry_delay
retry_delay_bounds b l m base maximum attempt more = elim (Bool-cases (leb (attempt + more) 1024)) [
  | inl y ↦
      let within : attempt + more ≤ 1024 = leb_sound _ _ y in
      let lowest = doubling_order (max 100000 base) 0 (attempt - 1) (omega arith) in
      let later =
        doubling_order (max 100000 base) (attempt - 1) (attempt + more - 1) (omega arith) in
      let small : leb 1024 (attempt - 1) ≡ false = leb_false _ _ (omega arith) in
      let small_later : leb 1024 (attempt + more - 1) ≡ false = leb_false _ _ (omega arith) in
      inl (
        within,
        (
          min (max 100000 base * 2 ^ (attempt - 1)) (max (max 100000 base) maximum),
          min (max 100000 base * 2 ^ (attempt + more - 1)) (max (max 100000 base) maximum),
          rw small refl,
          rw small_later refl,
          omega arith,
          omega arith,
          omega arith,
        ),
      )
  | inr n ↦
      let beyond : 1025 ≤ attempt + more = beyond_lem _ _ n in
      let large : leb 1024 (attempt + more - 1) ≡ true = leb_true _ _ (omega arith) in
      inr (beyond, rw large refl)
]
  where
    leb_sound : (x y : ℕ) → leb x y ≡ true → x ≤ y
    leb_sound x y h = ground arith

    leb_true : (x y : ℕ) → x ≤ y → leb x y ≡ true
    leb_true x y h = ground arith

    leb_false : (x y : ℕ) → suc y ≤ x → leb x y ≡ false
    leb_false x y h = ground arith

    beyond_lem : (x y : ℕ) → leb x y ≡ false → suc y ≤ x
    beyond_lem x y h = ground arith
