-- ===== src/Evolution/Dispatches/Rows.antt =====
-- What each UPDATE of the outbox does to one row.
use ange_media_gateway.Outbox.Requeue.{set_lost}
use ange_media_gateway.Evolution.Outbox.{
  dispatches_world_order, DispatchEvolves, is_settled, DispatchMove, DispatchPath,
}
use ange_media_gateway.Outbox.{set_lease, dispatch_status_beq, set_published, set_released}
use ange_media_gateway.Base.{
  string_eq, sym, subst, if◌then◌else◌, false, arith, Option, true, ◌≡◌, String, ℕ, Bool, refl,
}
use ange_media_gateway.Store.{JobDispatch, Env, DispatchStatus}

pub dispatch_status_beq_iff : (s t : DispatchStatus) → dispatch_status_beq s t ≡ true → s ≡ t
dispatch_status_beq_iff DispatchStatus.pending t h = ground arith
dispatch_status_beq_iff s t h = ground arith

-- What the claim may lease: a waiting row, or a leased one.
abbrev pub is_leasable : DispatchStatus → Bool
is_leasable DispatchStatus.pending = true
is_leasable DispatchStatus.publishing = true
is_leasable _ = false

DispatchPath-lease :
    (s : DispatchStatus) → is_leasable s ≡ true → DispatchPath s DispatchStatus.publishing
DispatchPath-lease DispatchStatus.pending h =
    DispatchPath.onward DispatchPath.here DispatchMove.lease
DispatchPath-lease DispatchStatus.publishing h = DispatchPath.here
DispatchPath-lease _ h = absurd (ground arith)

pub DispatchEvolves-set_lease :
    (token : String) (expires cutoff : ℕ) (d : JobDispatch)
    → is_leasable d.status ≡ true
    → DispatchEvolves d (set_lease token expires cutoff d)
DispatchEvolves-set_lease token expires cutoff d h = record {
  same_id = refl;
  same_job = refl;
  same_topic = refl;
  same_payload = refl;
  same_created = refl;
  version_grows = omega arith;
  change_is_versioned = λ e. absurd (omega arith);
  attempts_grow = omega arith;
  stays_settled = λ e. absurd (ground arith);
  delivery_is_kept = λ e. absurd (ground arith);
  path = DispatchPath-lease d.status h;
}

leased_path :
    {t : DispatchStatus} (s : DispatchStatus)
    → dispatch_status_beq s DispatchStatus.publishing ≡ true
    → DispatchMove DispatchStatus.publishing t
    → DispatchPath s t
leased_path DispatchStatus.publishing h m = DispatchPath.onward DispatchPath.here m
leased_path _ h m = absurd (ground arith)

leased_unsettled :
    (s : DispatchStatus)
    → dispatch_status_beq s DispatchStatus.publishing ≡ true
    → is_settled s ≡ false
leased_unsettled DispatchStatus.publishing h = refl
leased_unsettled _ h = ground arith

pub DispatchEvolves-set_published :
    (env : Env) (broker : Option String) (now : ℕ) (d : JobDispatch)
    → dispatch_status_beq d.status DispatchStatus.publishing ≡ true
    → DispatchEvolves d (set_published env broker now d)
unfolding set_published
DispatchEvolves-set_published env broker now d h = record {
  same_id = refl;
  same_job = refl;
  same_topic = refl;
  same_payload = refl;
  same_created = refl;
  version_grows = omega arith;
  change_is_versioned = λ e. absurd (omega arith);
  attempts_grow = omega arith;
  stays_settled = λ e. refl;
  delivery_is_kept = λ e. absurd (cc (leased_unsettled d.status h));
  path = leased_path d.status h DispatchMove.publish;
}

released_path :
    (terminal : Bool) (s : DispatchStatus)
    → dispatch_status_beq s DispatchStatus.publishing ≡ true
    → DispatchPath s (if terminal then DispatchStatus.failed else DispatchStatus.pending)
released_path true s h = leased_path s h DispatchMove.give_up
released_path false s h = leased_path s h DispatchMove.give_back

pub DispatchEvolves-set_released :
    (env : Env) (error : String) (available_at : ℕ) (terminal : Bool) (now : ℕ) (d : JobDispatch)
    → dispatch_status_beq d.status DispatchStatus.publishing ≡ true
    → DispatchEvolves d (set_released env error available_at terminal now d)
unfolding set_released
DispatchEvolves-set_released env error available_at terminal now d h = record {
  same_id = refl;
  same_job = refl;
  same_topic = refl;
  same_payload = refl;
  same_created = refl;
  version_grows = omega arith;
  change_is_versioned = λ e. absurd (omega arith);
  attempts_grow = omega arith;
  stays_settled = λ e. absurd (cc (leased_unsettled d.status h));
  delivery_is_kept = λ e. absurd (cc (leased_unsettled d.status h));
  path = released_path terminal d.status h;
}

pub DispatchEvolves-set_lost :
    (now : ℕ) (d : JobDispatch)
    → d.status ≡ DispatchStatus.published
    → DispatchEvolves d (set_lost now d)
DispatchEvolves-set_lost now d h = record {
  same_id = refl;
  same_job = refl;
  same_topic = refl;
  same_payload = refl;
  same_created = refl;
  version_grows = omega arith;
  change_is_versioned = λ e. absurd (omega arith);
  attempts_grow = omega arith;
  stays_settled = λ e. refl;
  delivery_is_kept = λ e. (refl, refl);
  path =
      subst (λ s. DispatchPath s DispatchStatus.failed) (sym h)
        (DispatchPath.onward DispatchPath.here DispatchMove.lose);
}
