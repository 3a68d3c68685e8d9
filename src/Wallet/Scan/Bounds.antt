-- ===== src/Wallet/Scan/Bounds.antt =====
-- src/wallet.rs: what holds of the worker's variables between two rounds.
use wallet_daemon.Base.{
  ◌+◌, ◌≤◌, ◌<◌, ◌≡◌, refl, ◌≢◌, Bool, true, false, ◌||◌, Option, none, some, List, [], ◌∷◌, ◌++◌,
  Text, subst, is_none, is_some, Result, ok, err, u32_max, arith, Bool-cases, Result-cases, inl,
  inr,
}
use wallet_daemon.Retry.{should_continue_empty_drain, max_consecutive_empty_pages}
use wallet_daemon.Retry.Drain.{should_continue_empty_drain→MayDrain}
use wallet_daemon.WorkTrigger.{finish_batch}
use wallet_daemon.WorkTrigger.Delivery.{deliver}
use wallet_daemon.Wallet.Request.{DeriveWalletRequest}
use wallet_daemon.Wallet.Step.{
  BatchOutcome, completed, submission_failed, WalletStep, continue, delay_then_fetch, wallet_step,
  empty_scan_step,
}
use wallet_daemon.Wallet.Scan.{
  Poll, Turn, Effect, round, begin_round, respond, empty_page, full_page, failed_lookup,
  finish_lookup, apply_step, hear,
}

pub record Inv (p : Poll) : Type 0 where
  pub drained : p.empty_pages ≤ max_consecutive_empty_pages
  pub fresh_start : p.cursor ≡ none → (p.empty_pages ≡ 0) × (p.restart_after_scan ≡ false)
  pub marked : 0 < p.empty_pages → p.restart_after_scan ≡ true
  pub mid_scan : p.cursor ≢ none → p.fetch_now ≡ true
  pub counted : p.failure_count ≤ u32_max

-- A step that leaves no page behind it unmarked.
abbrev pub Sound : WalletStep → Type 0
Sound (continue cursor restart reset fetch_now) =
    (cursor ≡ none → restart ≡ false) × (cursor ≢ none → fetch_now ≡ true)
Sound (delay_then_fetch cursor restart reason) = cursor ≡ none → restart ≡ false

wallet_step-Sound :
    (outcome : BatchOutcome) (next : Option Text) (restart deferred : Bool)
    → Sound (wallet_step outcome next restart deferred)
unfolding wallet_step
wallet_step-Sound completed none true deferred = λ _. refl
wallet_step-Sound completed none false deferred = (λ _. refl, λ ne. absurd (ne refl))
wallet_step-Sound completed (some c) restart deferred = (λ e. cc, λ _. refl)
wallet_step-Sound submission_failed none restart deferred = λ _. refl
wallet_step-Sound submission_failed (some c) restart deferred = λ e. cc

empty_scan_step-Sound : (restart deferred : Bool) → Sound (empty_scan_step restart deferred)
unfolding empty_scan_step
empty_scan_step-Sound true deferred = λ _. refl
empty_scan_step-Sound false deferred = (λ _. refl, λ ne. absurd (ne refl))

apply_step-Inv :
    (step : WalletStep) (turn : Turn) (p : Poll)
    → Sound step
    → p.empty_pages ≡ 0
    → p.failure_count ≤ u32_max
    → Inv (apply_step step turn p).0
unfolding apply_step
apply_step-Inv (continue cursor restart reset fetch_now) turn p (unmarked, at_once) e c = record {
  drained = ground (arith, e);
  fresh_start = λ n. (e, unmarked n);
  marked = λ h. absurd (ground (arith, e, h));
  mid_scan = at_once;
  counted = ground (arith, c);
}
apply_step-Inv (delay_then_fetch cursor restart reason) turn p unmarked e c = record {
  drained = ground (arith, e);
  fresh_start = λ n. (e, unmarked n);
  marked = λ h. absurd (ground (arith, e, h));
  mid_scan = λ _. refl;
  counted = ground (arith, c);
}

empty_page-Inv :
    (fresh : Bool) (next : Option Text) (turn : Turn) (p : Poll)
    → Inv p
    → Inv (empty_page fresh next turn p).0
unfolding empty_page
empty_page-Inv fresh next turn p v =
    elim (Bool-cases (should_continue_empty_drain p.cursor next p.empty_pages)) [
      | inl more ↦
          let d = should_continue_empty_drain→MayDrain p.cursor next p.empty_pages more in
          let drained : Poll = record p {
            empty_pages = p.empty_pages + 1;
            cursor = next;
            restart_after_scan = true;
            fetch_now = true;
          } in
          let at : drained ≡ (empty_page fresh next turn p).0 = ground (arith, more) in
          subst Inv at (record {
            drained = omega (arith, d.below_limit);
            fresh_start = λ n. absurd (ground (arith, n, d.offered));
            marked = λ _. refl;
            mid_scan = λ _. refl;
            counted = v.counted;
          })
      | inr stop ↦ rw stop (
          apply_step-Inv _ turn _
            (empty_scan_step-Sound (is_some next || p.restart_after_scan)
              (finish_lookup fresh p.trigger).1)
            refl v.counted)
    ]

full_page-Inv :
    (requests : List DeriveWalletRequest) (next : Option Text) (turn : Turn) (p p' : Poll)
    (es : List Effect)
    → Inv p
    → full_page requests next turn p ≡ ok (p', es)
    → Inv p'
unfolding full_page
full_page-Inv requests next turn p p' es v e = elim (Result-cases turn.ack) [
  | inl (outcome, a) ↦
      let (trigger, deferred) = finish_batch (is_none next) (deliver turn.during_batch p.trigger) in
      let step = wallet_step outcome next p.restart_after_scan deferred in
      let stepped =
        apply_step-Inv step turn (record p { empty_pages = 0; trigger = trigger })
          (wallet_step-Sound outcome next p.restart_after_scan deferred) refl v.counted in
      subst Inv (ground (arith, a)) stepped
  | inr (gone, a) ↦ absurd (ground (arith, a))
]

failed_lookup-Inv : (turn : Turn) (p : Poll) → Inv p → Inv (failed_lookup turn p).0
failed_lookup-Inv turn p v = record {
  drained = omega arith;
  fresh_start = λ _. (refl, refl);
  marked = λ h. absurd (omega (arith, h));
  mid_scan = λ _. refl;
  counted = ground (arith, v.counted);
}

pub begin_round-Inv :
    (turn : Turn) (p : Poll) → Inv p → Inv (hear turn.during_lookup (begin_round turn p).0)
unfolding begin_round
begin_round-Inv turn p v = record {
  drained = v.drained;
  fresh_start = v.fresh_start;
  marked = v.marked;
  mid_scan = v.mid_scan;
  counted = v.counted;
}

respond-Inv :
    (fresh : Bool) (response : Result Text (List DeriveWalletRequest × Option Text)) (turn : Turn)
    (p p' : Poll) (es : List Effect)
    → Inv p
    → respond fresh response turn p ≡ ok (p', es)
    → Inv p'
unfolding respond
respond-Inv fresh (ok ([], next)) turn p p' es v e =
    subst Inv (ground (arith, e)) (empty_page-Inv fresh next turn p v)
respond-Inv fresh (ok (r ∷ rs, next)) turn p p' es v e =
    full_page-Inv (r ∷ rs) next turn p p' es v e
respond-Inv fresh (err error) turn p p' es v e =
    subst Inv (ground (arith, e)) (failed_lookup-Inv turn p v)

-- A round is its response, to the variables that the lookup has left.
pub round-respond :
    (p : Poll) (turn : Turn) (p' : Poll) (es : List Effect)
    → round p turn ≡ ok (p', es)
    → (after : List Effect) × (respond
          (is_none p.cursor)
          turn.response
          turn
          (hear turn.during_lookup (begin_round turn p).0)
        ≡ ok (p', after))
      × (es ≡ (begin_round turn p).1 ++ after)
unfolding round
round-respond p turn p' es e =
    elim (Result-cases (
      respond (is_none p.cursor) turn.response turn
        (hear turn.during_lookup (begin_round turn p).0))) [
          | inl ((q, after), a) ↦ (after, ground (arith, a), ground (arith, a))
          | inr (gone, a) ↦ absurd (ground (arith, a))
        ]

-- Whatever the server, the processor and the other tasks do, a round that does not end the worker
-- keeps: at most 20 empty pages in a row; a fresh lookup starts with none and with nothing marked; a
-- scan that has passed an empty page is marked for a restart; in the middle of a scan the next page
-- is fetched at once; failures fit 32 bits.
pub wallet_round-Inv :
    (p : Poll) (turn : Turn) (p' : Poll) (es : List Effect)
    → Inv p
    → round p turn ≡ ok (p', es)
    → Inv p'
wallet_round-Inv p turn p' es v e =
    let (after, r, _) = round-respond p turn p' es e in
    respond-Inv (is_none p.cursor) turn.response turn _ p' after (begin_round-Inv turn p v) r
